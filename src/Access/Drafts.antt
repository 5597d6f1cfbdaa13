-- ===== src/Access/Drafts.antt =====
-- pages/Roles.tsx (`RoleEditor`) and pages/Users.tsx (`PermissionBuilder`, `RoleSelector`): the drafts
-- of permissions and the roles that are ticked.
pub mod Laws
use vps_pilot.Base.{
  ℕ, String, Bool, true, false, not, ◌&&◌, ◌||◌, List, [], ◌∷◌, ◌++◌, ◌==◌, eqb, if◌then◌else◌,
}
use vps_pilot.Base.Lists.{edit_at, remove_at}

pub record PermissionDraft : Type 0 where
  pub project_name : String
  pub actions : List String

abbrev pub project_actions : List String
project_actions =
    "view" ∷ "start" ∷ "stop" ∷ "restart" ∷ "deploy" ∷ "logs" ∷ "files" ∷ "manage" ∷ []

abbrev pub global_actions : List String
global_actions =
    "view_dashboard" ∷ "view_system" ∷ "view_logs" ∷ "view_files" ∷ "edit_files" ∷ "view_audit"
    ∷ "view_cron" ∷ "manage_cron" ∷ "view_notifications" ∷ "manage_notifications" ∷ "view_secrets"
    ∷ "manage_secrets" ∷ "view_registries" ∷ "manage_registries" ∷ "manage_backups"
    ∷ "manage_updates" ∷ "view_events" ∷ []

module _ {A : Type 0} (same : A → A → Bool) where
  -- `xs.includes(a)`
  abbrev pub includes : A → List A → Bool
  includes a [] = false
  includes a (x ∷ xs) = same x a || includes a xs

  -- `xs.filter((x) => x !== a)`
  abbrev pub filter_out : A → List A → List A
  filter_out a [] = []
  filter_out a (x ∷ xs) = let rest = filter_out a xs in if same x a then rest else x ∷ rest

  -- `xs.includes(a) ? xs.filter((x) => x !== a) : [...xs, a]`
  unfoldable pub toggle : A → List A → List A
  toggle a xs = if includes a xs then filter_out a xs else xs ++ a ∷ []

-- `RoleSelector.toggle`
unfoldable pub toggle_role : ℕ → List ℕ → List ℕ
unfolding toggle
toggle_role id selected = toggle eqb id selected

abbrev pub text_eq : String → String → Bool
text_eq a b = a == b

abbrev pub toggle_in : String → PermissionDraft → PermissionDraft
toggle_in action p = record p { actions = toggle text_eq action p.actions }

-- `addPermission`
unfoldable add_permission : List PermissionDraft → List PermissionDraft
add_permission ps = ps ++ record { project_name = "*"; actions = [] } ∷ []

-- `removePermission`
unfoldable remove_permission : ℕ → List PermissionDraft → List PermissionDraft
unfolding remove_at
remove_permission idx ps = remove_at idx ps

-- `updateProject`
unfoldable pub update_project : ℕ → String → List PermissionDraft → List PermissionDraft
unfolding edit_at
update_project idx name ps = edit_at idx (λ p. record p { project_name = name }) ps

-- `toggleAction`
unfoldable pub toggle_action : ℕ → String → List PermissionDraft → List PermissionDraft
unfolding edit_at toggle
toggle_action idx action ps = edit_at idx (toggle_in action) ps

-- The actions that have a button in a draft.
abbrev pub is_offered : PermissionDraft → String → Bool
is_offered p action =
    includes text_eq action project_actions
    || (p.project_name == "*" && includes text_eq action global_actions)

pub data Edit : Type 0 where
  add : Edit
  remove : ℕ → Edit
  choose_project : ℕ → String → Edit
  press : ℕ → String → Edit

unfoldable pub apply : Edit → List PermissionDraft → List PermissionDraft
unfolding add_permission remove_permission update_project toggle_action
apply add ps = add_permission ps
apply (remove i) ps = remove_permission i ps
apply (choose_project i name) ps = update_project i name ps
apply (press i action) ps = toggle_action i action ps

unfoldable pub apply_all : List Edit → List PermissionDraft → List PermissionDraft
unfolding apply
apply_all [] ps = ps
apply_all (e ∷ es) ps = apply_all es (apply e ps)
