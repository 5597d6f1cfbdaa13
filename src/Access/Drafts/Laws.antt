-- ===== src/Access/Drafts/Laws.antt =====
-- What a press of a button changes, and what a session of edits keeps.

use vps_pilot.Base.{
  ℕ, String, ◌≡◌, ◌≢◌, refl, ap, ◌∙◌, Bool, true, false, not, ◌&&◌, ◌||◌, Option, none, some, List,
  [], ◌∷◌, ◌++◌, ◌==◌, eqb, eq_iff, arith, if◌then◌else◌, All, All-append, Bool-cases, inl, inr,
}
use vps_pilot.Base.Lists.{get_elem?, on_some, get_elem?-edit_at, edit_at-All, remove_at-All}
use vps_pilot.Access.Drafts.{
  PermissionDraft, project_actions, global_actions, includes, filter_out, toggle, text_eq,
  toggle_in, update_project, toggle_action, is_offered, Edit, add, remove, choose_project, press,
  apply, apply_all,
}

-- Every entry is there once.
abbrev pub Distinct : List String → Type 0
Distinct [] = Unit
Distinct (a ∷ more) = (includes text_eq a more ≡ false) × Distinct more

includes-append :
    (a : String) (xs ys : List String)
    → includes text_eq a (xs ++ ys) ≡ (includes text_eq a xs || includes text_eq a ys)
includes-append a [] ys = refl
includes-append a (x ∷ xs) ys = ground (arith, includes-append a xs ys)

includes-filter_out :
    (a b : String) (xs : List String)
    → includes text_eq b (filter_out text_eq a xs)
      ≡ (if a == b then false else includes text_eq b xs)
includes-filter_out a b [] = ground arith
includes-filter_out a b (x ∷ xs) =
    ground (arith, eq_iff x a, eq_iff a b, eq_iff x b, includes-filter_out a b xs)

includes-same :
    (a b : String) (xs : List String) → a ≡ b → includes text_eq a xs ≡ includes text_eq b xs
includes-same a b xs e = ap (λ c. includes text_eq c xs) e

includes-toggle :
    (a b : String) (xs : List String)
    → includes text_eq b (toggle text_eq a xs)
      ≡ (if a == b then not (includes text_eq b xs) else includes text_eq b xs)
unfolding toggle
includes-toggle a b xs = ground (
  arith,
  eq_iff a b,
  includes-append b xs (a ∷ []),
  includes-filter_out a b xs,
  includes-same a b xs,
)

filter_out-Distinct :
    (a : String) (xs : List String) → Distinct xs → Distinct (filter_out text_eq a xs)
filter_out-Distinct a [] h = tt
filter_out-Distinct a (x ∷ xs) (h, hs) = elim (Bool-cases (text_eq x a)) [
  | inl t ↦ rw t (filter_out-Distinct a xs hs)
  | inr f ↦
      rw f (includes-filter_out a x xs ∙ rw h (if_false (a == x)), filter_out-Distinct a xs hs)
]
  where
    if_false : (b : Bool) → (if b then false else false) ≡ false
    if_false true = refl
    if_false false = refl

append-Distinct :
    (a : String) (xs : List String)
    → includes text_eq a xs ≡ false
    → Distinct xs
    → Distinct (xs ++ a ∷ [])
append-Distinct a [] n h = (refl, tt)
append-Distinct a (x ∷ xs) n (h, hs) =
    ground (arith, eq_iff x a, eq_iff a x, includes-append x xs (a ∷ []), append-Distinct a xs)

toggle-Distinct : (a : String) (xs : List String) → Distinct xs → Distinct (toggle text_eq a xs)
unfolding toggle
toggle-Distinct a xs h = elim (Bool-cases (includes text_eq a xs)) [
  | inl t ↦ rw t (filter_out-Distinct a xs h)
  | inr f ↦ rw f (append-Distinct a xs f h)
]

-- Whether draft i has the action.
abbrev pub has_action : Option PermissionDraft → String → Bool
has_action none action = false
has_action (some p) action = includes text_eq action p.actions

-- Whether there is a draft i.
abbrev pub is_draft : Option PermissionDraft → Bool
is_draft none = false
is_draft (some p) = true

toggle_in-flips :
    (o : Option PermissionDraft) (a b : String)
    → has_action (on_some (toggle_in a) o) b
      ≡ (if is_draft o && a == b then not (has_action o b) else has_action o b)
toggle_in-flips none a b = refl
toggle_in-flips (some p) a b = includes-toggle a b p.actions

-- A press of an action's button in a draft gives or takes that action of that draft and changes no
-- other action of any draft.
pub toggle_action-flips :
    (i j : ℕ) (a b : String) (ps : List PermissionDraft)
    → has_action (get_elem? (toggle_action i a ps) j) b ≡ (
        if eqb j i && (is_draft (get_elem? ps j) && a == b)
        then not (has_action (get_elem? ps j) b)
        else has_action (get_elem? ps j) b)
unfolding toggle_action
toggle_action-flips i j a b ps = elim (Bool-cases (eqb j i)) [
  | inl t ↦
      ap (λ o. has_action o b) (get_elem?-edit_at i j (toggle_in a) ps)
      ∙ rw t (toggle_in-flips (get_elem? ps j) a b)
  | inr f ↦ ap (λ o. has_action o b) (get_elem?-edit_at i j (toggle_in a) ps) ∙ rw f refl
]

abbrev pub ActionsAreDistinct : List PermissionDraft → Type 0
ActionsAreDistinct ps = All (λ p. Distinct p.actions) ps

apply-Distinct :
    (e : Edit) (ps : List PermissionDraft) → ActionsAreDistinct ps → ActionsAreDistinct (apply e ps)
unfolding apply
apply-Distinct add ps h =
    All-append (λ p. Distinct p.actions) ps (record { project_name = "*"; actions = [] } ∷ []) h
      (tt, tt)
apply-Distinct (remove i) ps h = remove_at-All (λ p. Distinct p.actions) i ps h
apply-Distinct (choose_project i name) ps h =
    edit_at-All (λ p. Distinct p.actions) i (λ p. record p { project_name = name }) ps (λ p v. v) h
apply-Distinct (press i a) ps h =
    edit_at-All (λ p. Distinct p.actions) i (toggle_in a) ps (λ p v. toggle-Distinct a p.actions v)
      h

-- Any edits of the drafts keep the actions of each draft distinct, if they were.
pub apply_all-Distinct :
    (es : List Edit) (ps : List PermissionDraft)
    → ActionsAreDistinct ps
    → ActionsAreDistinct (apply_all es ps)
unfolding apply_all
apply_all-Distinct [] ps h = h
apply_all-Distinct (e ∷ es) ps h = apply_all-Distinct es (apply e ps) (apply-Distinct e ps h)

eqb_refl : (n : ℕ) → eqb n n ≡ true
eqb_refl n = ground arith

edited :
    (i : ℕ) (f : PermissionDraft → PermissionDraft) (o : Option PermissionDraft)
    (p : PermissionDraft)
    → o ≡ some p
    → (if eqb i i then on_some f o else o) ≡ some (f p)
edited i f o p e = ap (λ b. if b then on_some f o else o) (eqb_refl i) ∙ ap (on_some f) e

not_offered : (x y z : Bool) → x ≡ false → y ≡ false → (x || (y && z)) ≡ false
not_offered x y z h k = rw (h, k) refl

not_all : (name : String) → name ≢ "*" → (name == "*") ≡ false
not_all name n = ground (arith, eq_iff name "*")

-- A draft for all projects that has a global action keeps it when a project is chosen for it, but
-- offers no button any more that would take it.
action_hidden :
    (i : ℕ) (name a : String) (p : PermissionDraft) (ps : List PermissionDraft)
    → get_elem? ps i ≡ some p
    → includes text_eq a p.actions ≡ true
    → includes text_eq a project_actions ≡ false
    → name ≢ "*"
    → (p' : PermissionDraft) × (get_elem? (update_project i name ps) i ≡ some p')
      × (includes text_eq a p'.actions ≡ true)
      × (is_offered p' a ≡ false)
unfolding update_project
action_hidden i name a p ps e h no_button n = (
  record p { project_name = name },
  get_elem?-edit_at i i (λ q. record q { project_name = name }) ps
      ∙ edited i (λ q. record q { project_name = name }) (get_elem? ps i) p e,
  h,
  not_offered (includes text_eq a project_actions) (name == "*") (includes text_eq a global_actions)
      no_button (not_all name n),
)
