-- ===== src/Compose/Parse/Whole.antt =====
-- components/compose/serializer.ts: `parseService`, `parseTopLevelMap` and `parseCompose`.
use vps_pilot.Base.{String, Bool, true, Option, none, some, [], ◌∷◌, if◌then◌else◌}
use vps_pilot.Base.Dict.{Dict, insert}
use vps_pilot.Base.Text.{is_blank}
use vps_pilot.Js.{Value, obj, end, member, entries, text?, number?, is_true}
use vps_pilot.Compose.Service.{ComposeService, ComposeFile}
use vps_pilot.Compose.Parse.Fields.{
  is_record, str_arr, command_text, parse_ports, parse_volumes, parse_depends_on,
}
use vps_pilot.Compose.Parse.Maps.{
  parse_environment, parse_labels, parse_sysctls, parse_networks, parse_ulimits,
}
use vps_pilot.Compose.Parse.Groups.{parse_healthcheck, parse_deploy, parse_logging, parse_build}

-- `if (raw.k === true) svc.k = true`
unfoldable pub flag : Value → Option Bool
flag v = if is_true v then some true else none

-- The body of `parseService`, over the reads `raw.k`.
unfoldable pub service_of : (String → Value) → ComposeService
service_of raw = record {
  image = text? (raw "image");
  build = parse_build (raw "build");
  container_name = text? (raw "container_name");
  hostname = text? (raw "hostname");
  restart = text? (raw "restart");
  ports = parse_ports (raw "ports");
  expose = str_arr (raw "expose");
  environment = parse_environment (raw "environment");
  volumes = parse_volumes (raw "volumes");
  networks = parse_networks (raw "networks");
  depends_on = parse_depends_on (raw "depends_on");
  healthcheck = parse_healthcheck (raw "healthcheck");
  deploy = parse_deploy (raw "deploy");
  logging = parse_logging (raw "logging");
  labels = parse_labels (raw "labels");
  command = command_text (raw "command");
  entrypoint = command_text (raw "entrypoint");
  user = text? (raw "user");
  working_dir = text? (raw "working_dir");
  env_file = str_arr (raw "env_file");
  privileged = flag (raw "privileged");
  read_only = flag (raw "read_only");
  tty = flag (raw "tty");
  stdin_open = flag (raw "stdin_open");
  init = flag (raw "init");
  extra_hosts = str_arr (raw "extra_hosts");
  cap_add = str_arr (raw "cap_add");
  cap_drop = str_arr (raw "cap_drop");
  pid = text? (raw "pid");
  ipc = text? (raw "ipc");
  shm_size = text? (raw "shm_size");
  stop_signal = text? (raw "stop_signal");
  stop_grace_period = text? (raw "stop_grace_period");
  scale = number? (raw "scale");
  profiles = str_arr (raw "profiles");
  tmpfs = str_arr (raw "tmpfs");
  dns = str_arr (raw "dns");
  dns_search = str_arr (raw "dns_search");
  security_opt = str_arr (raw "security_opt");
  sysctls = parse_sysctls (raw "sysctls");
  devices = str_arr (raw "devices");
  ulimits = parse_ulimits (raw "ulimits");
}

-- `parseService(raw)`, for an object or an array, which has none of the names.
unfoldable pub parse_service : Value → ComposeService
unfolding service_of member
parse_service raw = service_of (λ k. member k raw)

-- The loop over the services; what is no object is skipped.
unfoldable pub services_onto : Dict ComposeService → Dict Value → Dict ComposeService
services_onto m [] = m
services_onto m ((name, raw) ∷ more) =
    services_onto (if is_record raw then insert name (parse_service raw) m else m) more

unfoldable pub parse_top_level_map : Value → Value
parse_top_level_map raw = if is_record raw then raw else obj end

abbrev empty_file : ComposeFile
empty_file = record { version = none; services = []; networks = obj end; volumes = obj end }

-- `parseCompose` behind the blank test (`!yamlStr.trim()`) and the call of `load`, which is
-- `jsyaml.load`, `none` where it throws.
unfoldable pub file_of : Value → ComposeFile
unfolding services_onto parse_top_level_map
file_of root =
    if is_record root
    then record {
      version = text? (member "version" root);
      services =
          if is_record (member "services" root)
          then services_onto [] (entries (member "services" root))
          else [];
      networks = parse_top_level_map (member "networks" root);
      volumes = parse_top_level_map (member "volumes" root);
    }
    else empty_file

module _ (load : String → Option Value) where
  unfoldable pub parse_compose : String → ComposeFile
  unfolding file_of
  parse_compose yaml =
      if is_blank yaml
      then empty_file
      else elim (load yaml) [ none ↦ empty_file | some root ↦ file_of root ]
