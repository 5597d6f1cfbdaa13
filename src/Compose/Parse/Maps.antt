-- ===== src/Compose/Parse/Maps.antt =====
-- components/compose/serializer.ts: environment, labels, sysctls, networks and ulimits.
use vps_pilot.Base.{String, Option, none, some, List, [], ◌∷◌, if◌then◌else◌}
use vps_pilot.Base.Dict.{Dict, insert}
use vps_pilot.Base.Text.{split, join}
use vps_pilot.Js.{
  Value, num, str, arr, obj, end, items, fields, truthy, coalesce, get, entries, to_text, number?,
}
use vps_pilot.Compose.Service.{Ulimit}

-- `const [k, ...rest] = e.split("="); m[k] = rest.join("=")`
abbrev pub add_pair : List String → Dict String → Dict String
add_pair [] m = m
add_pair (k ∷ rest) m = insert k (join "=" rest) m

-- The loop over an array of `KEY=value` items; what is no text is skipped.
unfoldable pub pairs_onto : Dict String → List Value → Dict String
unfolding split join
pairs_onto m [] = m
pairs_onto m (str e ∷ vs) = pairs_onto (add_pair (split b'=' e) m) vs
pairs_onto m (v ∷ vs) = pairs_onto m vs

-- The loop over the entries of an object: `String(v ?? "")`.
unfoldable pub entries_onto : Dict String → Dict Value → Dict String
entries_onto m [] = m
entries_onto m ((k, v) ∷ vs) = entries_onto (insert k (to_text (coalesce v (str ""))) m) vs

unfoldable pub parse_environment : Value → Option (Dict String)
unfolding pairs_onto entries_onto
parse_environment v =
    if truthy v
    then some (elim v [
      | arr vs ↦ pairs_onto [] (items vs)
      | obj fs ↦ entries_onto [] (fields fs)
      | _ ↦ []
    ])
    else none

abbrev pub text_values : Dict String → Dict Value
text_values [] = []
text_values ((k, s) ∷ m) = (k, str s) ∷ text_values m

unfoldable pub parse_labels : Value → Option (Dict Value)
unfolding pairs_onto
parse_labels v =
    if truthy v
    then some
        (elim v [ arr vs ↦ text_values (pairs_onto [] (items vs)) | obj fs ↦ fields fs | _ ↦ [] ])
    else none

unfoldable pub parse_sysctls : Value → Option (Dict Value)
unfolding pairs_onto
parse_sysctls (obj fs) = some (fields fs)
parse_sysctls (arr vs) = some (text_values (pairs_onto [] (items vs)))
parse_sysctls _ = none

-- `svc.networks[n] = {}` for each text of an array.
unfoldable names_onto : Dict Value → List Value → Dict Value
names_onto m [] = m
names_onto m (str n ∷ vs) = names_onto (insert n (obj end) m) vs
names_onto m (v ∷ vs) = names_onto m vs

unfoldable pub parse_networks : Value → Option (Dict Value)
unfolding names_onto
parse_networks (obj fs) = some (fields fs)
parse_networks (arr vs) = some (names_onto [] (items vs))
parse_networks _ = none

-- One entry of `ulimits`; `none` if it is skipped.
abbrev pub ulimit_of : Value → Option Ulimit
ulimit_of (num n) = some (record { soft = some n; hard = some n })
ulimit_of (obj fs) =
    some (record { soft = number? (get "soft" fs); hard = number? (get "hard" fs) })
ulimit_of (arr vs) = some (record { soft = none; hard = none })
ulimit_of _ = none

abbrev pub add_ulimit : String → Option Ulimit → Dict Ulimit → Dict Ulimit
add_ulimit k none m = m
add_ulimit k (some u) m = insert k u m

unfoldable pub ulimits_onto : Dict Ulimit → Dict Value → Dict Ulimit
ulimits_onto m [] = m
ulimits_onto m ((k, v) ∷ vs) = ulimits_onto (add_ulimit k (ulimit_of v) m) vs

unfoldable pub parse_ulimits : Value → Option (Dict Ulimit)
unfolding ulimits_onto
parse_ulimits (obj fs) = some (ulimits_onto [] (fields fs))
parse_ulimits (arr vs) = some (ulimits_onto [] (entries (arr vs)))
parse_ulimits _ = none
