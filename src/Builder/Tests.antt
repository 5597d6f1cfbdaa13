-- ===== src/Builder/Tests.antt =====
-- Edits of a small file, and the theorems of this part at concrete inputs.
use vps_pilot.Base.{
  String, ◌≡◌, refl, true, false, none, some, List, [], ◌∷◌, map, if◌then◌else◌, or_else, ◌==◌,
}
use vps_pilot.Base.Dict.{Dict, lookup, has_key, NodupKeys}
use vps_pilot.Js.{Value, undefined, null, str, obj, end, field, ok, type_error, entries, show_ℕ}
use vps_pilot.Compose.Mount.{VolumeMount}
use vps_pilot.Compose.Service.{ComposeFile, ComposeService, DependsOnEntry, mount, raw_mount}
use vps_pilot.Builder.Used.{sync_top_level_volumes, spread, get_used_volumes}
use vps_pilot.Builder.Used.Laws.{if_content}
use vps_pilot.Builder.Used.Names.{uses}
use vps_pilot.Builder.Used.Sync.{sync_each_volume}
use vps_pilot.Builder.Services.{rename_service, new_service, free_service_name, add_service}
use vps_pilot.Builder.Services.Links.{IsLinked, rename_service-back}
use vps_pilot.Builder.Services.Edits.{
  add_service_lem, Session, start, then_edit, rename, add, session-IsLinked,
}
use vps_pilot.Builder.Panels.{}
use vps_pilot.Builder.Sections.{update_port, container_field}
use vps_pilot.Compose.Port.{PortSpec, port_spec_to_string}
use vps_pilot.Builder.Image.{
  parse_image_ref, select_tag, run, fresh_field, key_down, enter, arrow_down, typed, tags_found,
  key, tag_at, Event,
}
use vps_pilot.Builder.Image.Laws.{enter_selects_tag}

abbrev store : VolumeMount
store = record { source = "store"; target = "/data"; read_only = none }

abbrev on_base : DependsOnEntry
on_base = record { service = "base"; condition = undefined }

abbrev front : ComposeService
front = record new_service { volumes = some (mount store ∷ []); depends_on = some (on_base ∷ []) }

abbrev two_services : Dict ComposeService
two_services = ("front", front) ∷ ("base", new_service) ∷ []

-- One volume that nothing uses and that says nothing, and one with a driver.
abbrev declared : Value
declared = obj (field "old" (obj end) (field "kept" (obj (field "driver" (str "nfs") end)) end))

abbrev small_file : ComposeFile
small_file = record {
  version = none;
  services = two_services;
  networks = undefined;
  volumes = declared;
}

abbrev synced_file : ComposeFile
synced_file = record small_file {
  volumes = obj (field "kept" (obj (field "driver" (str "nfs") end)) (field "store" (obj end) end));
}

sync_small_file : sync_top_level_volumes small_file ≡ ok synced_file
unfolding sync_top_level_volumes
sync_small_file = refl

null_mount_throws :
    get_used_volumes (("x", record new_service { volumes = some (raw_mount null ∷ []) }) ∷ [])
    ≡ type_error
unfolding get_used_volumes
null_mount_throws = refl

declared-NodupKeys : NodupKeys (spread small_file.volumes)
unfolding entries has_key
declared-NodupKeys = (refl, (refl, tt))

sync_each_volume_example :
    (synced_file.services ≡ small_file.services)
    × (lookup "store" (spread synced_file.volumes) ≡ (
        if uses "store" small_file.services
        then some (or_else (lookup "store" (spread small_file.volumes)) (obj end))
        else if_content (lookup "store" (spread small_file.volumes))))
sync_each_volume_example = sync_each_volume small_file sync_small_file declared-NodupKeys "store"

small_file-IsLinked : IsLinked small_file
unfolding has_key
small_file-IsLinked = record { distinct = (refl, (refl, tt)); linked = ((refl, tt), (tt, tt)) }

spare_name : has_key "db" small_file.services ≡ false
unfolding has_key
spare_name = refl

rename_service-back_example :
    rename_service "db" "base" (rename_service "base" "db" small_file) ≡ small_file
rename_service-back_example =
    rename_service-back "base" "db" small_file small_file-IsLinked spare_name

abbrev small_session : Session small_file (add_service (rename_service "base" "db" small_file))
small_session = then_edit (then_edit start (rename "base" "db" refl)) (add refl)

session-IsLinked_example : IsLinked (add_service (rename_service "base" "db" small_file))
session-IsLinked_example = session-IsLinked small_session small_file-IsLinked

add_service_lem_example :
    (has_key (free_service_name small_file.services) small_file.services ≡ false)
    × (lookup "base" (add_service small_file).services ≡ (
        if free_service_name small_file.services == "base"
        then some new_service
        else lookup "base" small_file.services))
add_service_lem_example = add_service_lem small_file "base"

names_found :
    (free_service_name small_file.services ≡ "service")
    × (free_service_name (("service", front) ∷ ("service2", front) ∷ []) ≡ "service3")
unfolding free_service_name show_ℕ
names_found = (refl, refl)

abbrev some_env : Dict String
some_env = ("PORT", "80") ∷ ("HOST", "a") ∷ ("HOSTS", "b") ∷ []

abbrev some_networks : Dict Value
some_networks = ("front", null) ∷ ("back", obj (field "driver" (str "bridge") end)) ∷ []

abbrev tag_events : List Event
tag_events =
    typed "nginx:1" ∷ tags_found ("1.25" ∷ "1.26" ∷ []) ∷ key arrow_down ∷ key arrow_down ∷ []

tag_state :
    ((run tag_events (fresh_field "nginx")).tags_open ≡ true)
    × ((run tag_events (fresh_field "nginx")).selected_idx ≡ some 1)
unfolding run
tag_state = (refl, refl)

enter_selects_tag_example :
    (t : String) × (tag_at (run tag_events (fresh_field "nginx")).tags 1 ≡ some t)
    × (key_down enter (run tag_events (fresh_field "nginx"))
        ≡ select_tag (some t) (run tag_events (fresh_field "nginx")))
enter_selects_tag_example = enter_selects_tag "nginx" tag_events 1 tag_state.0 tag_state.1

image_ref_tests :
    ((parse_image_ref "ghcr.io/a/b:1").prefix ≡ "ghcr.io/")
    × ((parse_image_ref "a/b:1").prefix ≡ "")
    × ((parse_image_ref "localhost/b").rest ≡ "b")
unfolding parse_image_ref
image_ref_tests = (refl, refl, refl)

abbrev web_port : PortSpec
web_port = record { ip = none; host = some "80"; container = some "8080"; protocol = none }

-- A port whose container field is emptied.
emptied_port :
    map port_spec_to_string (update_port 0 container_field "" (web_port ∷ [])) ≡ "80:undefined" ∷ []
unfolding update_port port_spec_to_string
emptied_port = refl
