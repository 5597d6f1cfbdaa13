-- ===== src/Compose/Tests.antt =====
-- Documents that are read and saved, and the theorems of this part at concrete inputs.
use vps_pilot.Base.{String, ◌≡◌, refl, Bool, ◌||◌, Option, none, some, [], ◌∷◌, arith}
use vps_pilot.Base.Text.{split, join, is_blank}
use vps_pilot.Base.Dict.{Dict, insert, has_key}
use vps_pilot.Js.{
  Value, Fields, null, bool, num, str, arr, obj, nil, cons, end, field, get, put, member, to_text,
  join_items, texts, text_fields, ok, map_result, entries,
}
use vps_pilot.Compose.Port.{PortSpec, parse_port_spec, port_spec_to_string}
use vps_pilot.Compose.Port.Laws as PortLaws
use vps_pilot.Compose.Mount.{parse_volume_mount, volume_mount_to_string}
use vps_pilot.Compose.Service.{ComposeFile}
use vps_pilot.Compose.Parse.{
  str_arr, command_text, parse_port, parse_ports, parse_volumes, parse_depends_on, parse_networks,
  parse_ulimits, parse_healthcheck, parse_deploy, parse_logging, parse_build, flag, parse_service,
  parse_compose, parse_environment, parse_labels, parse_sysctls, parse_mount, file_of,
}
use vps_pilot.Compose.Serialize.{
  text_write, restart_write, flag_write, number_write, list_write, env_write, map_write, print_port,
  ports_write, volumes_write, depends_write, ulimits_write, build_write, health_write, deploy_write,
  logging_write, serialize_service, write_all, serialize_compose, compose_object, print_mount,
}
use vps_pilot.Compose.Stable.Whole.{serialize_stable}
use vps_pilot.Compose.Stable.File.{save_stable}
use vps_pilot.Compose.Reading.Pairs.{pair_items, environment_forms}
use vps_pilot.Compose.Reading.Throws.{throws, holds_null, serialize-throws_iff}
use vps_pilot.Compose.Reading.Loss.{none_check}
use vps_pilot.Compose.Reading.Short.{IsShort, short_settles, parse_service-IsStable}

parse_port_tests :
    (parse_port_spec "127.0.0.1:80:8080/tcp" ≡ record {
      ip = some "127.0.0.1";
      host = some "80";
      container = some "8080";
      protocol = some "tcp";
    })
    × (port_spec_to_string (parse_port_spec "53:53/udp") ≡ "53:53/udp")
    × (port_spec_to_string (parse_port_spec "127.0.0.1:80:8080/tcp") ≡ "127.0.0.1:80:8080")
    × (port_spec_to_string (parse_port_spec "[::1]:80:80") ≡ "[::1]")
unfolding parse_port_spec port_spec_to_string
parse_port_tests = (refl, refl, refl, refl)

abbrev dns_port : PortSpec
dns_port = record { ip = none; host = some "53"; container = some "5353"; protocol = some "udp" }

parse_port-print_example :
    parse_port_spec (port_spec_to_string dns_port) ≡ PortLaws.normalize dns_port
parse_port-print_example = PortLaws.parse_port-print dns_port (omega arith)

-- A service as a document holds it.
abbrev document : Value
document = obj (
    field "image" (str "nginx") (
      field "ports" (arr (cons (str "80:80/tcp") (cons (num "443") nil))) (
        field "environment" (arr (texts ("A=b=c" ∷ "D" ∷ []))) (
          field "volumes" (arr (cons (str "data:/d:ro") nil)) (
            field "depends_on"
              (obj (field "db" (obj (field "condition" (str "service_healthy") end)) end))
              (field "restart" (str "no") (field "dns" (str "8.8.8.8") end)))))))

-- What is saved of it.
abbrev saved : Fields
saved = field "image" (str "nginx") (
    field "ports" (arr (cons (str "80:80") (cons (str "443") nil))) (
      field "environment" (obj (field "A" (str "b=c") (field "D" (str "") end))) (
        field "volumes" (arr (cons (str "data:/d:ro") nil)) (
          field "depends_on"
            (obj (field "db" (obj (field "condition" (str "service_healthy") end)) end)) end))))

-- Opens what a whole save computes through.
all_open : Unit {0}
unfolding serialize_service parse_service str_arr command_text parse_port parse_ports parse_mount
    parse_volumes parse_depends_on parse_environment parse_labels parse_sysctls parse_networks
    parse_ulimits parse_healthcheck parse_deploy parse_logging parse_build flag write_all text_write
    restart_write flag_write number_write list_write env_write map_write print_port ports_write
    print_mount volumes_write depends_write ulimits_write build_write health_write deploy_write
    logging_write map_result put get to_text join_items insert port_spec_to_string
    volume_mount_to_string parse_port_spec parse_volume_mount compose_object serialize_compose
    parse_compose entries file_of split join is_blank
all_open = tt

saves : serialize_service (parse_service document) ≡ ok saved
unfolding all_open
saves = refl

document-IsShort : IsShort document
unfolding get member has_key
document-IsShort = record {
  ports_short = (tt, (omega arith, tt));
  volumes_short = (tt, tt);
  depends_proper = (refl, tt);
  args_filled = λ h. cc;
}

short_settles_example : serialize_service (parse_service (obj saved)) ≡ ok saved
short_settles_example = short_settles document saved document-IsShort saves

serialize_stable_example : serialize_service (parse_service (obj saved)) ≡ ok saved
serialize_stable_example =
    serialize_stable (parse_service document) saved
      (parse_service-IsStable document document-IsShort) saves

-- A file with that service.
abbrev file : ComposeFile
file = record {
  version = some "3";
  services = ("web", parse_service document) ∷ [];
  networks = obj (field "front" null end);
  volumes = obj (field "data" (obj end) end);
}

abbrev saved_file : Value
saved_file = obj (
    field "version" (str "3") (
      field "services" (obj (field "web" (obj saved) end)) (
        field "networks" (obj (field "front" null end))
          (field "volumes" (obj (field "data" (obj end) end)) end))))

saves_file : compose_object file ≡ ok saved_file
unfolding all_open
saves_file = refl

-- A stand-in for js-yaml that knows one document.
abbrev dump_one : Value → String
dump_one v = "version: '3' ..."

abbrev load_one : String → Option Value
load_one s = some saved_file

save_stable_example :
    serialize_compose dump_one (parse_compose load_one (dump_one saved_file))
    ≡ ok (dump_one saved_file)
unfolding is_blank has_key
save_stable_example =
    save_stable load_one dump_one file saved_file
      (record {
        services_ok = (parse_service-IsStable document document-IsShort, tt);
        distinct = (refl, tt);
        networks_ok = refl;
        volumes_ok = refl;
      })
      saves_file refl refl

abbrev variables : Dict String
variables = ("A", "b=c") ∷ ("D", "") ∷ []

environment_forms_example :
    parse_environment (arr (pair_items variables)) ≡ parse_environment (obj (text_fields variables))
environment_forms_example = environment_forms variables (omega arith)

abbrev with_null : Value
with_null = obj (field "ports" (arr (cons (str "80") (cons null nil))) end)

serialize-throws_iff_example :
    throws (serialize_service (parse_service with_null))
    ≡ (holds_null (member "ports" with_null) || holds_null (member "volumes" with_null))
serialize-throws_iff_example = serialize-throws_iff with_null

abbrev unchecked : Value
unchecked = obj (field "image" (str "nginx") (field "healthcheck" none_check end))

saves_unchecked : serialize_service (parse_service unchecked) ≡ ok (field "image" (str "nginx") end)
unfolding all_open
saves_unchecked = refl

-- The same mount, read-only and writable.
abbrev long_mount : Bool → Value
long_mount b = obj (
    field "type" (str "bind")
      (field "source" (str "/etc") (field "target" (str "/e") (field "read_only" (bool b) end))))
