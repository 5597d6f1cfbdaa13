-- ===== src/Project/Tests.antt =====
-- A project whose first file is edited, whose second is removed, and that gets a third.
use vps_pilot.Base.{◌↔◌}
use vps_pilot.Base.Scan.{trim}
use vps_pilot.Base.Sets.{has}
use vps_pilot.Project.Variables.{load_entries, env_of, images_changed}
use vps_pilot.Project.Variables.Laws.{env_of-loaded}
use vps_pilot.Project.Variables.Images.{images_changed_iff}
use vps_pilot.Project.Secrets.{OfferedSecret}
use vps_pilot.Project.Secrets.Laws.{
  AttachedOnce, attach, name_var, attach_steps, attach_steps-AttachedOnce,
}
use vps_pilot.Base.{String, ◌≡◌, refl, true, false, none, some, List, [], ◌∷◌}
use vps_pilot.Base.Dict.{Dict, has_key}
use vps_pilot.Js.{Value, str, obj, bool, field, end}
use vps_pilot.Project.Deployment.{Deployment, deploy, pull_new, params, start, on_message}
use vps_pilot.Project.Save.{
  FileEntry, compose_tab, file_tab, add_file, remove_file, save_calls, delete_project_file,
  upsert_project_file,
}

abbrev loaded : Dict String
loaded = ("a.conf", "1") ∷ ("b.conf", "2") ∷ []

abbrev edited_files : List FileEntry
edited_files =
    record { filename = "a.conf"; content = "3"; to_delete = none }
    ∷ record { filename = "b.conf"; content = "2"; to_delete = some true }
    ∷ record { filename = "c.conf"; content = "4"; to_delete = none }
    ∷ []

-- A new file is sent twice.
save_calls_test :
    save_calls loaded edited_files
    ≡ delete_project_file "b.conf"
      ∷ upsert_project_file "a.conf" "3"
      ∷ upsert_project_file "c.conf" "4"
      ∷ upsert_project_file "c.conf" "4"
      ∷ []
unfolding save_calls
save_calls_test = refl

tab_tests :
    ((add_file (record { files = edited_files; active_tab = compose_tab })).active_tab ≡ file_tab 3)
    × ((remove_file 2 (record { files = edited_files; active_tab = file_tab 2 })).active_tab
        ≡ compose_tab)
unfolding add_file remove_file
tab_tests = (refl, refl)

abbrev idle : Deployment
idle = record { deploying = false; logs = []; action = none; ws = none; made = 0 }

-- `{ type: "done", data: { success: true } }`
abbrev done_message : Value
done_message =
    obj (field "type" (str "done") (field "data" (obj (field "success" (bool true) end)) end))

-- `{ type: "status", data: { status: "pulling", error: "slow" } }`
abbrev status_message : Value
status_message = obj (
    field "type" (str "status")
      (field "data" (obj (field "status" (str "pulling") (field "error" (str "slow") end))) end))

deployment_tests :
    (on_message 0 (some done_message) (start deploy idle) ≡ (
      record {
        deploying = false;
        logs = str "✓ Completed successfully" ∷ [];
        action = some deploy;
        ws = some 0;
        made = 1;
      },
      true,
    ))
    × ((on_message 0 (some status_message) (start deploy idle)).0.logs
        ≡ str "[status] pulling: slow" ∷ [])
    × (params pull_new true ≡ ("action", "pull_new") ∷ ("rollback", "true") ∷ [])
unfolding on_message start params
deployment_tests = (refl, refl, refl)

first_socket : (start deploy idle).ws ≡ some 0
unfolding start
first_socket = refl

abbrev two_vars : Dict String
two_vars = ("A", "1") ∷ ("B", "2") ∷ []

env_of-loaded_example : env_of (load_entries two_vars) ≡ two_vars
unfolding trim has_key
env_of-loaded_example = env_of-loaded two_vars ((refl, refl), ((refl, refl), tt)) (refl, (refl, tt))

images_changed_iff_example :
    (images_changed ("a" ∷ "b" ∷ []) ("b" ∷ "a" ∷ []) ≡ false)
    ↔ ((i : String) → has i ("a" ∷ "b" ∷ []) ≡ has i ("b" ∷ "a" ∷ []))
images_changed_iff_example =
    images_changed_iff ("a" ∷ "b" ∷ []) ("b" ∷ "a" ∷ []) (refl, (refl, tt)) (refl, (refl, tt))

abbrev two_offered : List OfferedSecret
two_offered = record { id = 1; name = "DB" } ∷ record { id = 2; name = "API" } ∷ []

attach_steps-AttachedOnce_example :
    AttachedOnce (attach_steps two_offered (attach 0 ∷ attach 0 ∷ name_var 1 "X" ∷ []) [])
attach_steps-AttachedOnce_example =
    attach_steps-AttachedOnce two_offered (attach 0 ∷ attach 0 ∷ name_var 1 "X" ∷ []) [] tt
