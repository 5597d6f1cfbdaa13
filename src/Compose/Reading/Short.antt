-- ===== src/Compose/Reading/Short.antt =====
-- Which documents settle after one save: those in short form.

use vps_pilot.Base.{
  String, ◌≡◌, refl, ap, ◌∙◌, Bool, true, false, ◌||◌, Option, none, some, List, [], ◌∷◌, map, ◌==◌,
  if◌then◌else◌, all, All, Bool-cases, inl, inr,
}
use vps_pilot.Base.Text.{split}
use vps_pilot.Base.Dict.{Dict, NodupKeys, has_key, insert, insert-NodupKeys}
use vps_pilot.Js.{
  Value, Fields, undefined, null, bool, num, str, arr, obj, items, fields, entries, truthy,
  has_keys, member, ok,
}
use vps_pilot.Compose.Port.Laws.{IsPart}
use vps_pilot.Compose.Port.Normal.{parse-HasParts}
use vps_pilot.Compose.Mount.Laws.{parse-HasParts as mount_parse-HasParts}
use vps_pilot.Compose.Service.{Ulimit}
use vps_pilot.Compose.Parse.{
  is_record, record?, parse_port, parse_ports, parse_mount, parse_volumes, plain_dependency,
  keyed_dependency, parse_depends_on, add_pair, pairs_onto, entries_onto, parse_environment,
  add_ulimit, ulimit_of, ulimits_onto, parse_ulimits, parse_build, parse_logging, parse_service,
}
use vps_pilot.Compose.Serialize.{is_started, serialize_service}
use vps_pilot.Compose.Stable.Lines.{OptionAll, PortIsStable, MountIsStable}
use vps_pilot.Compose.Stable.Maps.{DistinctKeys, DistinctServices, dependency_map}
use vps_pilot.Compose.Stable.Groups.{ArgsAreStable, BuildIsStable}
use vps_pilot.Compose.Stable.Limits.{LoggingIsStable, OptionsAreRecord}
use vps_pilot.Compose.Stable.Whole.{IsStable, serialize_stable}

-- A port that is no object; a number is a decimal without a separator.
abbrev IsShortPort : Value → Type 0
IsShortPort (num n) = IsPart n
IsShortPort (obj fs) = ⊥
IsShortPort (arr vs) = ⊥
IsShortPort _ = Unit

abbrev IsShortMount : Value → Type 0
IsShortMount (str s) = Unit
IsShortMount _ = ⊥

-- Every item of an array.
abbrev EachItem : (Value → Type 0) → Value → Type 0
EachItem P (arr vs) = All P (items vs)
EachItem P _ = Unit

-- An object lists no key twice.
abbrev IsProper : Value → Type 0
IsProper (obj fs) = NodupKeys (fields fs)
IsProper _ = Unit

-- A service whose ports and volumes are in short form, and whose build arguments, if it has any, are
-- not empty.
pub record IsShort (raw : Value) : Type 0 where
  pub ports_short : EachItem IsShortPort (member "ports" raw)
  pub volumes_short : EachItem IsShortMount (member "volumes" raw)
  pub depends_proper : IsProper (member "depends_on" raw)
  pub args_filled :
      is_record (member "args" (member "build" raw)) ≡ true
      → has_keys (member "args" (member "build" raw)) ≡ true

short_port : (v : Value) → IsShortPort v → PortIsStable (parse_port v)
unfolding parse_port
short_port (str s) h = parse-HasParts s
short_port (num n) h = record {
  ip_part = tt;
  host_part = tt;
  container_part = h;
  protocol_part = tt;
}
short_port (obj fs) h = absurd h
short_port (arr vs) h = absurd h
short_port (bool b) h = tt
short_port null h = tt
short_port undefined h = tt

All-map :
    {A B : Type 0} (f : A → B) (P : A → Type 0) (Q : B → Type 0)
    → ((x : A) → P x → Q (f x))
    → (xs : List A) → All P xs
    → All Q (map f xs)
All-map f P Q step [] h = tt
All-map f P Q step (x ∷ xs) (h, hs) = (step x h, All-map f P Q step xs hs)

short_ports : (v : Value) → EachItem IsShortPort v → OptionAll PortIsStable (parse_ports v)
unfolding parse_ports
short_ports (arr vs) h = All-map parse_port IsShortPort PortIsStable short_port (items vs) h
short_ports undefined h = tt
short_ports _ h = tt

short_mount : (v : Value) → IsShortMount v → MountIsStable (parse_mount v)
unfolding parse_mount
short_mount (str s) h = mount_parse-HasParts s
short_mount undefined h = absurd h
short_mount _ h = absurd h

short_volumes : (v : Value) → EachItem IsShortMount v → OptionAll MountIsStable (parse_volumes v)
unfolding parse_volumes
short_volumes (arr vs) h = All-map parse_mount IsShortMount MountIsStable short_mount (items vs) h
short_volumes undefined h = tt
short_volumes _ h = tt

-- The maps that the parser fills list no key twice.
add_pair-NodupKeys : (ps : List String) (m : Dict String) → NodupKeys m → NodupKeys (add_pair ps m)
add_pair-NodupKeys [] m u = u
add_pair-NodupKeys (k ∷ rest) m u = insert-NodupKeys k _ m u

pairs_onto-NodupKeys :
    (m : Dict String) (vs : List Value) → NodupKeys m → NodupKeys (pairs_onto m vs)
unfolding pairs_onto
pairs_onto-NodupKeys m [] u = u
pairs_onto-NodupKeys m (str e ∷ vs) u =
    pairs_onto-NodupKeys (add_pair (split b'=' e) m) vs (add_pair-NodupKeys (split b'=' e) m u)
pairs_onto-NodupKeys m (undefined ∷ vs) u = pairs_onto-NodupKeys m vs u
pairs_onto-NodupKeys m (null ∷ vs) u = pairs_onto-NodupKeys m vs u
pairs_onto-NodupKeys m (bool b ∷ vs) u = pairs_onto-NodupKeys m vs u
pairs_onto-NodupKeys m (num n ∷ vs) u = pairs_onto-NodupKeys m vs u
pairs_onto-NodupKeys m (arr ws ∷ vs) u = pairs_onto-NodupKeys m vs u
pairs_onto-NodupKeys m (obj fs ∷ vs) u = pairs_onto-NodupKeys m vs u

entries_onto-NodupKeys :
    (m : Dict String) (vs : Dict Value) → NodupKeys m → NodupKeys (entries_onto m vs)
unfolding entries_onto
entries_onto-NodupKeys m [] u = u
entries_onto-NodupKeys m ((k, v) ∷ vs) u =
    entries_onto-NodupKeys (insert k _ m) vs (insert-NodupKeys k _ m u)

empty_distinct : (b : Bool) → DistinctKeys {V = String} (if b then some [] else none)
empty_distinct true = tt
empty_distinct false = tt

environment_distinct : (v : Value) → DistinctKeys (parse_environment v)
unfolding parse_environment
environment_distinct (arr vs) = pairs_onto-NodupKeys [] (items vs) tt
environment_distinct (obj fs) = entries_onto-NodupKeys [] (fields fs) tt
environment_distinct undefined = tt
environment_distinct null = tt
environment_distinct (bool b) = empty_distinct b
environment_distinct (num n) = empty_distinct (truthy (num n))
environment_distinct (str s) = empty_distinct (truthy (str s))

add_ulimit-NodupKeys :
    (k : String) (o : Option Ulimit) (m : Dict Ulimit) → NodupKeys m → NodupKeys (add_ulimit k o m)
add_ulimit-NodupKeys k none m u = u
add_ulimit-NodupKeys k (some l) m u = insert-NodupKeys k l m u

ulimits_onto-NodupKeys :
    (m : Dict Ulimit) (vs : Dict Value) → NodupKeys m → NodupKeys (ulimits_onto m vs)
unfolding ulimits_onto
ulimits_onto-NodupKeys m [] u = u
ulimits_onto-NodupKeys m ((k, v) ∷ vs) u =
    ulimits_onto-NodupKeys (add_ulimit k (ulimit_of v) m) vs
      (add_ulimit-NodupKeys k (ulimit_of v) m u)

ulimits_distinct : (v : Value) → DistinctKeys (parse_ulimits v)
unfolding parse_ulimits
ulimits_distinct (obj fs) = ulimits_onto-NodupKeys [] (fields fs) tt
ulimits_distinct (arr vs) = ulimits_onto-NodupKeys [] (entries (arr vs)) tt
ulimits_distinct _ = tt

plain-started : (vs : List Value) → all is_started (map plain_dependency vs) ≡ true
plain-started [] = refl
plain-started (v ∷ vs) = plain-started vs

has_key-keyed :
    (k : String) (m : Dict Value)
    → has_key k (dependency_map (map keyed_dependency m)) ≡ has_key k m
unfolding has_key
has_key-keyed k [] = refl
has_key-keyed k ((j, v) ∷ m) = ap (λ b. j == k || b) (has_key-keyed k m)

keyed-NodupKeys :
    (m : Dict Value) → NodupKeys m → NodupKeys (dependency_map (map keyed_dependency m))
keyed-NodupKeys [] u = tt
keyed-NodupKeys ((k, v) ∷ m) (fresh, u) = (has_key-keyed k m ∙ fresh, keyed-NodupKeys m u)

depends_distinct : (v : Value) → IsProper v → DistinctServices (parse_depends_on v)
unfolding parse_depends_on
depends_distinct (arr vs) h = inl (plain-started (items vs))
depends_distinct (obj fs) h = inr (keyed-NodupKeys (fields fs) h)
depends_distinct _ h = tt

record?-ArgsAreStable :
    (v : Value) → (is_record v ≡ true → has_keys v ≡ true) → ArgsAreStable (record? v)
record?-ArgsAreStable v h = elim (Bool-cases (is_record v)) [
  | inl t ↦ rw t (t, h t)
  | inr f ↦ rw f tt
]

record?-OptionsAreRecord : (v : Value) → OptionsAreRecord (record? v)
record?-OptionsAreRecord v = elim (Bool-cases (is_record v)) [ inl t ↦ rw t t | inr f ↦ rw f tt ]

no_build : (b : Bool) → BuildIsStable (if b then none else none)
no_build true = tt
no_build false = tt

build_filled :
    (v : Value)
    → (is_record (member "args" v) ≡ true → has_keys (member "args" v) ≡ true)
    → BuildIsStable (parse_build v)
unfolding parse_build
build_filled (arr vs) h = record?-ArgsAreStable (member "args" (arr vs)) h
build_filled (obj fs) h = record?-ArgsAreStable (member "args" (obj fs)) h
build_filled (str String.[]) h = tt
build_filled (str (String.◌∷◌ c s)) h = tt
build_filled undefined h = tt
build_filled null h = tt
build_filled (bool b) h = no_build b
build_filled (num n) h = no_build (truthy (num n))

logging_record : (v : Value) → LoggingIsStable (parse_logging v)
unfolding parse_logging
logging_record v = elim (Bool-cases (is_record v)) [
  | inl t ↦ rw t (record?-OptionsAreRecord (member "options" v))
  | inr f ↦ rw f tt
]

pub parse_service-IsStable : (raw : Value) → IsShort raw → IsStable (parse_service raw)
unfolding parse_service
parse_service-IsStable raw h = record {
  build_ok = build_filled (member "build" raw) h.args_filled;
  ports_ok = short_ports (member "ports" raw) h.ports_short;
  environment_ok = environment_distinct (member "environment" raw);
  volumes_ok = short_volumes (member "volumes" raw) h.volumes_short;
  depends_ok = depends_distinct (member "depends_on" raw) h.depends_proper;
  logging_ok = logging_record (member "logging" raw);
  ulimits_ok = ulimits_distinct (member "ulimits" raw);
}

-- A service of a document in short form settles after one save: what is written of it is read and
-- written again unchanged.
pub short_settles :
    (raw : Value) (out : Fields)
    → IsShort raw
    → serialize_service (parse_service raw) ≡ ok out
    → serialize_service (parse_service (obj out)) ≡ ok out
short_settles raw out h e =
    serialize_stable (parse_service raw) out (parse_service-IsStable raw h) e
