-- ===== src/Compose/Serialize/Fields.antt =====
-- components/compose/serializer.ts: the values of the plain fields, lists and maps.
use vps_pilot.Base.{
  String, ◌<>◌, Bool, true, false, not, ◌&&◌, ◌||◌, Option, none, some, List, [], ◌∷◌, ◌==◌,
  if◌then◌else◌, all,
}
use vps_pilot.Base.Dict.{Dict}
use vps_pilot.Js.{
  Value, Items, Fields, Number, bool, num, str, arr, obj, nil, cons, end, field, of_list, of_dict,
  truthy, is_nullish, coalesce, put, member, to_text, texts, text_fields, of_number, Result, ok,
  type_error, ◌>>=◌, map_result,
}
use vps_pilot.Compose.Port.{port_spec_to_string}
use vps_pilot.Compose.Mount.{volume_mount_to_string}
use vps_pilot.Compose.Parse.{started}
use vps_pilot.Compose.Service.{
  PortEntry, spec, null_port, bool_port, MountEntry, mount, raw_mount, DependsOnEntry, Ulimit,
}

-- `str(key, val)`
unfoldable pub text_write : Option String → Option Value
text_write none = none
text_write (some String.[]) = none
text_write (some (String.◌∷◌ c s)) = some (str (String.◌∷◌ c s))

-- `if (svc.restart && svc.restart !== "no") str(…)`
unfoldable pub restart_write : Option String → Option Value
unfolding text_write
restart_write none = none
restart_write (some s) = if s == "no" then none else text_write (some s)

-- `bool(key, val)`
unfoldable pub flag_write : Option Bool → Option Value
flag_write (some true) = some (bool true)
flag_write _ = none

-- `num(key, val)`
unfoldable pub number_write : Option Number → Option Value
number_write none = none
number_write (some n) = some (num n)

-- `arr(key, val)`
unfoldable pub list_write : Option (List String) → Option Value
list_write (some (s ∷ ss)) = some (arr (texts (s ∷ ss)))
list_write _ = none

-- A map of texts, if it has a key.
unfoldable pub env_write : Option (Dict String) → Option Value
env_write (some ((k, v) ∷ m)) = some (obj (text_fields ((k, v) ∷ m)))
env_write _ = none

-- A map of values, if it has a key.
unfoldable pub map_write : Option (Dict Value) → Option Value
map_write (some ((k, v) ∷ m)) = some (obj (of_dict ((k, v) ∷ m)))
map_write _ = none

-- `portSpecToString` at run time: null has no property, and a Boolean has none of the names.
unfoldable pub print_port : PortEntry → Result Value
print_port (spec p) = ok (str (port_spec_to_string p))
print_port null_port = type_error
print_port (bool_port b) = ok (str "undefined")

unfoldable pub ports_write : Option (List PortEntry) → Result (Option Value)
unfolding print_port map_result
ports_write none = ok none
ports_write (some []) = ok none
ports_write (some (p ∷ ps)) = do
  lines ← map_result print_port (p ∷ ps)
  ok (some (arr (of_list lines)))

-- `volumeMountToString` at run time, on a value of the document.
abbrev pub print_raw : Value → Value
print_raw v =
    if truthy (member "source" v)
    then str (
        to_text (member "source" v)
        <> (":"
            <> (to_text (member "target" v)
                <> (if truthy (member "readOnly" v) then ":ro" else ""))))
    else member "target" v

unfoldable pub print_mount : MountEntry → Result Value
unfolding member
print_mount (mount v) = ok (str (volume_mount_to_string v))
print_mount (raw_mount v) = if is_nullish v then type_error else ok (print_raw v)

unfoldable pub volumes_write : Option (List MountEntry) → Result (Option Value)
unfolding print_mount map_result
volumes_write none = ok none
volumes_write (some []) = ok none
volumes_write (some (v ∷ vs)) = do
  lines ← map_result print_mount (v ∷ vs)
  ok (some (arr (of_list lines)))

-- `v === "service_started"`
abbrev is_text : String → Value → Bool
is_text t (str s) = s == t
is_text t _ = false

-- `!d.condition || d.condition === "service_started"`
abbrev pub is_started : DependsOnEntry → Bool
is_started d = not (truthy d.condition) || is_text "service_started" d.condition

abbrev pub service_items : List DependsOnEntry → Items
service_items [] = nil
service_items (d ∷ ds) = cons (str d.service) (service_items ds)

abbrev pub condition_object : DependsOnEntry → Value
condition_object d = obj (field "condition" (coalesce d.condition started) end)

-- The loop that fills `deps`.
unfoldable pub deps_onto : Fields → List DependsOnEntry → Fields
deps_onto fs [] = fs
deps_onto fs (d ∷ ds) = deps_onto (put d.service (condition_object d) fs) ds

unfoldable pub depends_value : List DependsOnEntry → Value
unfolding deps_onto
depends_value ds = if all is_started ds then arr (service_items ds) else obj (deps_onto end ds)

unfoldable pub depends_write : Option (List DependsOnEntry) → Option Value
unfolding depends_value
depends_write (some (d ∷ ds)) = some (depends_value (d ∷ ds))
depends_write _ = none

-- `v.soft != null && v.hard != null && v.soft === v.hard`; NaN differs from itself.
abbrev same_number : Option Number → Option Number → Bool
same_number (some a) (some b) = a == b && not (a == "NaN")
same_number _ _ = false

abbrev pub ulimit_value : Ulimit → Value
ulimit_value u =
    if same_number u.soft u.hard
    then of_number u.soft
    else obj (field "soft" (of_number u.soft) (field "hard" (of_number u.hard) end))

unfoldable pub ulimit_fields : Dict Ulimit → Fields
ulimit_fields [] = end
ulimit_fields ((k, u) ∷ m) = field k (ulimit_value u) (ulimit_fields m)

unfoldable pub ulimits_write : Option (Dict Ulimit) → Option Value
unfolding ulimit_fields
ulimits_write (some ((k, u) ∷ m)) = some (obj (ulimit_fields ((k, u) ∷ m)))
ulimits_write _ = none
