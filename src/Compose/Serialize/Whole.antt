-- ===== src/Compose/Serialize/Whole.antt =====
-- components/compose/serializer.ts: `serializeService` and `serializeCompose`.
use vps_pilot.Base.{String, Option, none, some, [], ◌∷◌}
use vps_pilot.Base.Dict.{Dict}
use vps_pilot.Js.{Value, Fields, obj, end, of_dict, Result, ok, ◌>>=◌, map_result}
use vps_pilot.Compose.Service.{ComposeService, ComposeFile}
use vps_pilot.Compose.Serialize.Object.{Writes, write_all}
use vps_pilot.Compose.Serialize.Fields.{
  text_write, restart_write, flag_write, number_write, list_write, env_write, map_write,
  ports_write, volumes_write, depends_write, ulimits_write,
}
use vps_pilot.Compose.Serialize.Groups.{
  build_write, health_write, deploy_write, logging_write, keyed_write,
}

-- The statements of `serializeService`, over the printed ports and volumes.
unfoldable pub service_writes : ComposeService → Option Value → Option Value → Writes
service_writes svc ports volumes =
    ("image", text_write svc.image)
    ∷ ("build", build_write svc.build)
    ∷ ("container_name", text_write svc.container_name)
    ∷ ("hostname", text_write svc.hostname)
    ∷ ("restart", restart_write svc.restart)
    ∷ ("command", text_write svc.command)
    ∷ ("entrypoint", text_write svc.entrypoint)
    ∷ ("user", text_write svc.user)
    ∷ ("working_dir", text_write svc.working_dir)
    ∷ ("pid", text_write svc.pid)
    ∷ ("ipc", text_write svc.ipc)
    ∷ ("shm_size", text_write svc.shm_size)
    ∷ ("stop_signal", text_write svc.stop_signal)
    ∷ ("stop_grace_period", text_write svc.stop_grace_period)
    ∷ ("scale", number_write svc.scale)
    ∷ ("privileged", flag_write svc.privileged)
    ∷ ("read_only", flag_write svc.read_only)
    ∷ ("tty", flag_write svc.tty)
    ∷ ("stdin_open", flag_write svc.stdin_open)
    ∷ ("init", flag_write svc.init)
    ∷ ("ports", ports)
    ∷ ("expose", list_write svc.expose)
    ∷ ("environment", env_write svc.environment)
    ∷ ("volumes", volumes)
    ∷ ("networks", map_write svc.networks)
    ∷ ("depends_on", depends_write svc.depends_on)
    ∷ ("healthcheck", health_write svc.healthcheck)
    ∷ ("deploy", deploy_write svc.deploy)
    ∷ ("logging", logging_write svc.logging)
    ∷ ("labels", map_write svc.labels)
    ∷ ("env_file", list_write svc.env_file)
    ∷ ("extra_hosts", list_write svc.extra_hosts)
    ∷ ("cap_add", list_write svc.cap_add)
    ∷ ("cap_drop", list_write svc.cap_drop)
    ∷ ("profiles", list_write svc.profiles)
    ∷ ("tmpfs", list_write svc.tmpfs)
    ∷ ("dns", list_write svc.dns)
    ∷ ("dns_search", list_write svc.dns_search)
    ∷ ("security_opt", list_write svc.security_opt)
    ∷ ("devices", list_write svc.devices)
    ∷ ("sysctls", map_write svc.sysctls)
    ∷ ("ulimits", ulimits_write svc.ulimits)
    ∷ []

unfoldable pub serialize_service : ComposeService → Result Fields
unfolding service_writes
serialize_service svc = do
  ports ← ports_write svc.ports
  volumes ← volumes_write svc.volumes
  ok (write_all (service_writes svc ports volumes) end)

-- One round of the loop over the services.
abbrev pub serialize_entry : String × ComposeService → Result (String × Value)
serialize_entry (name, svc) = do out ← serialize_service svc; ok (name, obj out)

abbrev pub nonempty_map : Dict Value → Option Value
nonempty_map [] = none
nonempty_map ((k, v) ∷ m) = some (obj (of_dict ((k, v) ∷ m)))

-- The statements of `serializeCompose`, over the written services.
abbrev pub file_writes : ComposeFile → Dict Value → Writes
file_writes cf services =
    ("version", text_write cf.version)
    ∷ ("services", nonempty_map services)
    ∷ ("networks", keyed_write (some cf.networks))
    ∷ ("volumes", keyed_write (some cf.volumes))
    ∷ []

-- `serializeCompose` up to the call of `jsyaml.dump`: the object that is dumped.
unfoldable pub compose_object : ComposeFile → Result Value
unfolding serialize_service map_result
compose_object cf = do
  services ← map_result serialize_entry cf.services
  ok (obj (write_all (file_writes cf services) end))

-- `dump` is `jsyaml.dump`, with the options of the source.
module _ (dump : Value → String) where
  unfoldable pub serialize_compose : ComposeFile → Result String
  unfolding compose_object
  serialize_compose cf = do out ← compose_object cf; ok (dump out)
