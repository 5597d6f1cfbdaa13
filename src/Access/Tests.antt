-- ===== src/Access/Tests.antt =====
-- Drafts of a role and users of three kinds, and the theorems of this part at them.
use vps_pilot.Access.Dialogs.{UserView, access_form, access_update, updated_user}
use vps_pilot.Access.Dialogs.Laws.{access_kept}
use vps_pilot.Base.{
  ◌≡◌, refl, true, false, not, ◌&&◌, some, List, [], ◌∷◌, ◌==◌, eqb, if◌then◌else◌,
}
use vps_pilot.Base.Lists.{get_elem?}
use vps_pilot.Access.Drafts.{
  PermissionDraft, toggle_action, Edit, add, choose_project, press, remove, apply_all, toggle_role,
}
use vps_pilot.Access.Drafts.Laws.{
  has_action, is_draft, toggle_action-flips, ActionsAreDistinct, apply_all-Distinct,
}
use vps_pilot.Access.Session.{
  visible_items, sync_user, nav_items, projects_link, initial, open_link,
}

abbrev everywhere : PermissionDraft
everywhere = record { project_name = "*"; actions = "view" ∷ "view_secrets" ∷ [] }

abbrev drafts : List PermissionDraft
drafts = everywhere ∷ record { project_name = "blog"; actions = "deploy" ∷ [] } ∷ []

toggle_action_tests :
    (toggle_action 1 "logs" drafts
      ≡ everywhere ∷ record { project_name = "blog"; actions = "deploy" ∷ "logs" ∷ [] } ∷ [])
    × (toggle_role 3 (1 ∷ 3 ∷ 4 ∷ []) ≡ 1 ∷ 4 ∷ [])
unfolding toggle_action toggle_role
toggle_action_tests = (refl, refl)

toggle_action-flips_example : has_action (get_elem? (toggle_action 0 "view" drafts) 0) "view" ≡ (
    if eqb 0 0 && (is_draft (get_elem? drafts 0) && "view" == "view")
    then not (has_action (get_elem? drafts 0) "view")
    else has_action (get_elem? drafts 0) "view")
toggle_action-flips_example = toggle_action-flips 0 0 "view" "view" drafts

abbrev some_edits : List Edit
some_edits = add ∷ press 2 "start" ∷ press 2 "start" ∷ choose_project 0 "shop" ∷ remove 1 ∷ []

apply_all-Distinct_example : ActionsAreDistinct (apply_all some_edits drafts)
apply_all-Distinct_example =
    apply_all-Distinct some_edits drafts ((refl, (refl, tt)), ((refl, tt), tt))

reader_links :
    visible_items
      (sync_user
        (record {
          query_data = some (record {
            me_username = "ann";
            me_is_admin = some false;
            me_permissions = some ("view_logs" ∷ []);
          });
          is_error = true;
        })
        initial)
      nav_items
    ≡ projects_link ∷ open_link "/logs" "view_logs" ∷ []
unfolding visible_items sync_user
reader_links = refl

abbrev a_user : UserView
a_user = record {
  id = 7;
  role_ids = some (1 ∷ 2 ∷ []);
  custom_permissions = some (record { project_name = "shop"; actions = "view" ∷ [] } ∷ []);
}

access_kept_example :
    access_form (updated_user a_user (access_update (access_form a_user))) ≡ access_form a_user
access_kept_example = access_kept a_user
