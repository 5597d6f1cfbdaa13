-- ===== src/Compose/Parse/Groups.antt =====
-- components/compose/serializer.ts: healthcheck, deploy, logging and build.
use vps_pilot.Base.{String, ◌&&◌, Option, none, some, if◌then◌else◌}
use vps_pilot.Js.{
  Value, num, str, arr, obj, nil, cons, truthy, member, join_items, text?, number?, is_true,
}
use vps_pilot.Compose.Service.{BuildConfig, HealthCheck, Deploy, LoggingConfig}
use vps_pilot.Compose.Parse.Fields.{is_record}

-- `Array.isArray(t) ? t.slice(1).join(" ") : (typeof t === "string" ? t : undefined)`
abbrev pub test_text : Value → Option String
test_text (arr nil) = some ""
test_text (arr (cons v vs)) = some (join_items " " vs)
test_text (str s) = some s
test_text _ = none

-- `v && typeof v === "object" ? v : undefined`
abbrev pub record? : Value → Option Value
record? v = if is_record v then some v else none

unfoldable pub parse_healthcheck : Value → Option HealthCheck
parse_healthcheck h =
    if is_record h
    then some (record {
      test = test_text (member "test" h);
      interval = text? (member "interval" h);
      timeout = text? (member "timeout" h);
      retries = number? (member "retries" h);
      start_period = text? (member "start_period" h);
      disable = some (is_true (member "disable" h));
    })
    else none

-- `cpus` may be written as a number.
abbrev pub cpus_text : Value → Option String
cpus_text (str s) = some s
cpus_text (num n) = some n
cpus_text _ = none

unfoldable pub parse_deploy : Value → Option Deploy
parse_deploy d =
    let res = member "resources" d in
    let lim = member "limits" res in
    if is_record d && (is_record res && is_record lim)
    then some (record {
      resources = some (record {
        limits =
            some (record {
              cpus = cpus_text (member "cpus" lim);
              memory = text? (member "memory" lim);
            });
      });
    })
    else none

unfoldable pub parse_logging : Value → Option LoggingConfig
parse_logging l =
    if is_record l
    then some
        (record { driver = text? (member "driver" l); options = record? (member "options" l) })
    else none

abbrev pub build_object : Value → BuildConfig
build_object b = record {
  context = text? (member "context" b);
  dockerfile = text? (member "dockerfile" b);
  args = record? (member "args" b);
  target = text? (member "target" b);
}

unfoldable pub parse_build : Value → Option BuildConfig
parse_build b =
    if truthy b
    then elim b [
      | str s ↦ some (record { context = some s; dockerfile = none; args = none; target = none })
      | arr vs ↦ some (build_object (arr vs))
      | obj fs ↦ some (build_object (obj fs))
      | _ ↦ none
    ]
    else none
