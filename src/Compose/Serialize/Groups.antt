-- ===== src/Compose/Serialize/Groups.antt =====
-- components/compose/serializer.ts: the objects of build, healthcheck, deploy and logging.
use vps_pilot.Base.{
  String, Bool, true, false, not, ◌&&◌, ◌||◌, Option, none, some, [], ◌∷◌, if◌then◌else◌,
}
use vps_pilot.Js.{Value, Fields, bool, str, arr, obj, nil, cons, end, field, has_keys, of_text}
use vps_pilot.Compose.Port.{filled}
use vps_pilot.Compose.Mount.{is_set}
use vps_pilot.Compose.Service.{BuildConfig, HealthCheck, ResourceLimits, Deploy, LoggingConfig}
use vps_pilot.Compose.Serialize.Object.{Writes, write_all}
use vps_pilot.Compose.Serialize.Fields.{text_write, number_write}

-- An object that is written only if it has a key.
abbrev pub nonempty_object : Fields → Option Value
nonempty_object end = none
nonempty_object (field k v fs) = some (obj (field k v fs))

abbrev pub is_some {ℓ} : {A : Type ℓ} → Option A → Bool
is_some none = false
is_some (some a) = true

-- `v && Object.keys(v).length > 0`
abbrev pub keyed_write : Option Value → Option Value
keyed_write none = none
keyed_write (some v) = if has_keys v then some v else none

abbrev pub build_writes : BuildConfig → Writes
build_writes b =
    ("context", text_write b.context)
    ∷ ("dockerfile", text_write b.dockerfile)
    ∷ ("target", text_write b.target)
    ∷ ("args", keyed_write b.args)
    ∷ []

abbrev pub context_only : BuildConfig → Bool
context_only b =
    filled b.context
    && (not (filled b.dockerfile) && (not (is_some b.args) && not (filled b.target)))

unfoldable pub build_value : BuildConfig → Value
build_value b = if context_only b then of_text b.context else obj (write_all (build_writes b) end)

unfoldable pub build_write : Option BuildConfig → Option Value
unfolding build_value
build_write none = none
build_write (some b) = some (build_value b)

-- `["CMD-SHELL", test]`
abbrev pub test_write : Option String → Option Value
test_write o = if filled o then some (arr (cons (str "CMD-SHELL") (cons (of_text o) nil))) else none

abbrev pub health_writes : HealthCheck → Writes
health_writes h =
    if is_set h.disable
    then ("disable", some (bool true)) ∷ []
    else ("test", test_write h.test)
      ∷ ("interval", text_write h.interval)
      ∷ ("timeout", text_write h.timeout)
      ∷ ("retries", number_write h.retries)
      ∷ ("start_period", text_write h.start_period)
      ∷ []

unfoldable pub health_write : Option HealthCheck → Option Value
health_write none = none
health_write (some h) = nonempty_object (write_all (health_writes h) end)

abbrev pub limits_of : Option Deploy → Option ResourceLimits
limits_of none = none
limits_of (some d) = elim d.resources [ none ↦ none | some r ↦ r.limits ]

abbrev pub limit_writes : ResourceLimits → Writes
limit_writes lim = ("cpus", text_write lim.cpus) ∷ ("memory", text_write lim.memory) ∷ []

abbrev pub deploy_object : Fields → Value
deploy_object lim = obj (field "resources" (obj (field "limits" (obj lim) end)) end)

abbrev pub limits_write : Option ResourceLimits → Option Value
limits_write none = none
limits_write (some lim) =
    if filled lim.cpus || filled lim.memory
    then some (deploy_object (write_all (limit_writes lim) end))
    else none

unfoldable pub deploy_write : Option Deploy → Option Value
deploy_write o = limits_write (limits_of o)

abbrev pub log_writes : LoggingConfig → Writes
log_writes l = ("driver", some (of_text l.driver)) ∷ ("options", keyed_write l.options) ∷ []

unfoldable pub logging_write : Option LoggingConfig → Option Value
logging_write none = none
logging_write (some l) = if filled l.driver then some (obj (write_all (log_writes l) end)) else none
