-- ===== src/Compose/Stable/Whole.antt =====
-- A service that was written, read back and written again.
use mathlib.Core.Path.{fun_ext, ap₂, subst⁻¹}
use vps_pilot.Base.{◌≡◌, refl, ap, sym, ◌∙◌, Option}
use vps_pilot.Js.{Value, Fields, undefined, obj, end, Result, ok, ◌>>=◌}
use vps_pilot.Js.Laws.{>>=-eq-ok}
use vps_pilot.Compose.Service.{ComposeService}
use vps_pilot.Compose.Parse.{service_of, parse_service, parse_ports, parse_volumes}
use vps_pilot.Compose.Serialize.{
  Writes, write_all, last_write, get-write_all, ports_write, volumes_write, service_writes,
  serialize_service,
}
use vps_pilot.Compose.Stable.Fields.{
  reread, text_stable, command_stable, restart_stable, flag_stable, number_stable, list_stable,
  labels_stable, sysctls_stable, networks_stable,
}
use vps_pilot.Compose.Stable.Lines.{
  OptionAll, PortIsStable, MountIsStable, ports_stable, volumes_stable,
}
use vps_pilot.Compose.Stable.Maps.{
  DistinctKeys, DistinctServices, env_stable, ulimits_stable, depends_stable,
}
use vps_pilot.Compose.Stable.Groups.{BuildIsStable, build_stable, health_stable}
use vps_pilot.Compose.Stable.Limits.{LoggingIsStable, deploy_stable, logging_stable}

-- The services whose text is settled after one save: ports and mounts with clean parts, objects
-- that list no key twice, and no empty argument map.
pub record IsStable (svc : ComposeService) : Type 0 where
  pub build_ok : BuildIsStable svc.build
  pub ports_ok : OptionAll PortIsStable svc.ports
  pub environment_ok : DistinctKeys svc.environment
  pub volumes_ok : OptionAll MountIsStable svc.volumes
  pub depends_ok : DistinctServices svc.depends_on
  pub logging_ok : LoggingIsStable svc.logging
  pub ulimits_ok : DistinctKeys svc.ulimits

-- What is read back of a written service.
abbrev read_writes : Writes → ComposeService
read_writes ws = service_of (λ k. last_write k ws undefined)

parse-write_all : (ws : Writes) → parse_service (obj (write_all ws end)) ≡ read_writes ws
unfolding parse_service
parse-write_all ws = ap service_of (fun_ext (λ k. get-write_all k ws end))

module _ (svc : ComposeService) (h : IsStable svc) (ports volumes : Option Value) where
  writes_again :
      service_writes (read_writes (service_writes svc ports volumes)) ports volumes
      ≡ service_writes svc ports volumes
  unfolding service_writes service_of
  writes_again = simp (
    text_stable, command_stable, restart_stable, flag_stable, number_stable, list_stable,
    labels_stable, sysctls_stable, networks_stable, env_stable, ulimits_stable, depends_stable,
    build_stable, health_stable, deploy_stable, logging_stable, h.build_ok, h.environment_ok,
    h.depends_ok, h.logging_ok, h.ulimits_ok,
  )

-- The body of `serialize_service`, with its calls shut.
abbrev body : ComposeService → Result (Option Value) → Result (Option Value) → Result Fields
body svc ports volumes = do p ← ports; v ← volumes; ok (write_all (service_writes svc p v) end)

serialize-body :
    (svc : ComposeService)
    → serialize_service svc ≡ body svc (ports_write svc.ports) (volumes_write svc.volumes)
unfolding serialize_service
serialize-body svc = refl

ports_read :
    (svc : ComposeService) (ports volumes : Option Value)
    → (read_writes (service_writes svc ports volumes)).ports ≡ parse_ports (reread ports)
unfolding service_of service_writes
ports_read svc ports volumes = refl

volumes_read :
    (svc : ComposeService) (ports volumes : Option Value)
    → (read_writes (service_writes svc ports volumes)).volumes ≡ parse_volumes (reread volumes)
unfolding service_of service_writes
volumes_read svc ports volumes = refl

-- Every stable service, whatever its fields hold, is written, read and written again to the same
-- object.
pub serialize_stable :
    (svc : ComposeService) (out : Fields)
    → IsStable svc
    → serialize_service svc ≡ ok out
    → serialize_service (parse_service (obj out)) ≡ ok out
serialize_stable svc out h e =
    let (ports, printed, e') = >>=-eq-ok (ports_write svc.ports) _ (sym (serialize-body svc) ∙ e) in
    let (volumes, mounted, e'') = >>=-eq-ok (volumes_write svc.volumes) _ e' in
    let ws = service_writes svc ports volumes in
    let same : out ≡ write_all ws end = cc in
    let once_more = read_writes ws in
    let ports_again =
      ap ports_write (ports_read svc ports volumes)
      ∙ ports_stable svc.ports ports h.ports_ok printed in
    let volumes_again =
      ap volumes_write (volumes_read svc ports volumes)
      ∙ volumes_stable svc.volumes volumes h.volumes_ok mounted in
    subst⁻¹ (λ (t : Fields). serialize_service (parse_service (obj t)) ≡ ok t) same
      (ap serialize_service (parse-write_all ws)
        ∙ serialize-body once_more
        ∙ ap₂ (body once_more) ports_again volumes_again
        ∙ ap (λ t. ok (write_all t end)) (writes_again svc h ports volumes))
