-- ===== src/Builder/Services.antt =====
-- components/compose/ComposeBuilder.tsx: `ComposeBuilder` updates, renames, removes and adds services.
pub mod Laws
pub mod Links
pub mod Removal
pub mod Edits
use vps_pilot.Base.{
  suc, String, Bool, true, false, Option, none, some, List, [], ◌∷◌, map, ◌==◌, if◌then◌else◌,
  length,
}
use vps_pilot.Base.Dict.{Dict, insert, erase, has_key, keys}
use vps_pilot.Js.{Result}
use vps_pilot.Compose.Service.{ComposeFile, ComposeService, DependsOnEntry}
use vps_pilot.Builder.Used.{sync_top_level_volumes}
use vps_pilot.Builder.Keys.{rename_key, free_from}

-- `updateService`, up to the call of `onChange`.
unfoldable pub update_service : String → ComposeService → ComposeFile → Result ComposeFile
unfolding insert
update_service name svc cf =
    sync_top_level_volumes (record cf { services = insert name svc cf.services })

-- `d.service === oldName ? { ...d, service: newName } : d`
abbrev pub redirect : String → String → DependsOnEntry → DependsOnEntry
redirect old new d = if d.service == old then record d { service = new } else d

abbrev pub redirect_all :
    String → String → Option (List DependsOnEntry) → Option (List DependsOnEntry)
redirect_all old new none = none
redirect_all old new (some ds) = some (map (redirect old new) ds)

-- `next[k] = { ...svc, depends_on: … }`, if there are dependencies.
abbrev pub assign_redirected :
    String
    → String
    → String
    → ComposeService
    → Option (List DependsOnEntry)
    → Dict ComposeService
    → Dict ComposeService
assign_redirected old new k svc none next = next
assign_redirected old new k svc (some ds) next =
    insert k (record svc { depends_on = some (map (redirect old new) ds) }) next

-- The loop over the entries of `next` that assigns to it.
unfoldable pub redirect_onto :
    String → String → Dict ComposeService → Dict ComposeService → Dict ComposeService
unfolding insert
redirect_onto old new [] next = next
redirect_onto old new ((k, svc) ∷ es) next =
    redirect_onto old new es (assign_redirected old new k svc svc.depends_on next)

-- `renameService`: nothing happens if the new name is taken.
unfoldable pub rename_service : String → String → ComposeFile → ComposeFile
unfolding has_key rename_key redirect_onto
rename_service old new cf =
    if has_key new cf.services
    then cf
    else let next = rename_key old new cf.services in
      record cf { services = redirect_onto old new next next }

-- `removeService`
unfoldable pub remove_service : String → ComposeFile → ComposeFile
unfolding erase
remove_service name cf = record cf { services = erase name cf.services }

-- `{ restart: "unless-stopped" }`
abbrev pub new_service : ComposeService
new_service = record {
  image = none;
  build = none;
  container_name = none;
  hostname = none;
  restart = some "unless-stopped";
  ports = none;
  expose = none;
  environment = none;
  volumes = none;
  networks = none;
  depends_on = none;
  healthcheck = none;
  deploy = none;
  logging = none;
  labels = none;
  command = none;
  entrypoint = none;
  user = none;
  working_dir = none;
  env_file = none;
  privileged = none;
  read_only = none;
  tty = none;
  stdin_open = none;
  init = none;
  extra_hosts = none;
  cap_add = none;
  cap_drop = none;
  pid = none;
  ipc = none;
  shm_size = none;
  stop_signal = none;
  stop_grace_period = none;
  scale = none;
  profiles = none;
  tmpfs = none;
  dns = none;
  dns_search = none;
  security_opt = none;
  sysctls = none;
  devices = none;
  ulimits = none;
}

-- The name that `addService` finds; one round more than there are services is enough.
unfoldable pub free_service_name : Dict ComposeService → String
unfolding free_from has_key
free_service_name svcs =
    free_from (suc (length (keys svcs))) "service" (λ n. has_key n svcs) 1 "service"

unfoldable pub add_service : ComposeFile → ComposeFile
unfolding free_service_name insert
add_service cf = record cf {
  services = insert (free_service_name cf.services) new_service cf.services;
}
