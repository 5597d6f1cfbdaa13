-- ===== src/Compose/Stable/Maps.antt =====
-- The environment, dependencies and ulimits of a service, written, read and written again.
use vps_pilot.Base.{
  String, ◌≡◌, refl, ap, sym, ◌∙◌, true, false, Option, none, some, List, [], ◌∷◌, ◌++◌, map,
  eq_iff, arith, all, Bool-cases, inl, inr, ◌⊎◌,
}
use mathlib.Core.Bool.{true≢false}
use mathlib.Core.List.{append-nil}
use mathlib.Core.Path.{subst⁻¹}
use vps_pilot.Base.Dict.{Dict, NodupKeys, insert, insert-middle}
use vps_pilot.Js.{
  Value, Fields, Items, undefined, null, bool, num, str, arr, obj, end, items, fields, coalesce,
  member, get, put, to_text, text_fields,
}
use vps_pilot.Js.Laws.{fields-put}
use vps_pilot.Compose.Service.{DependsOnEntry, Ulimit}
use vps_pilot.Compose.Parse.{
  entries_onto, parse_environment, started, keyed_dependency, plain_dependency, parse_depends_on,
  ulimit_of, ulimits_onto, parse_ulimits,
}
use vps_pilot.Compose.Serialize.{
  env_write, is_started, service_items, condition_object, deps_onto, depends_value, depends_write,
  ulimit_value, ulimit_fields, ulimits_write,
}
use vps_pilot.Compose.Stable.Fields.{reread}

-- An optional map lists no key twice, as every object does.
abbrev pub DistinctKeys : {V : Type 0} → Option (Dict V) → Type 0
DistinctKeys none = Unit
DistinctKeys (some m) = NodupKeys m

pub entries_onto-text_fields :
    (acc m : Dict String)
    → NodupKeys (acc ++ m)
    → entries_onto acc (fields (text_fields m)) ≡ acc ++ m
unfolding entries_onto to_text
entries_onto-text_fields acc [] h = sym (append-nil acc)
entries_onto-text_fields acc ((k, s) ∷ m) h =
    let same = insert-middle acc k s m h in
    entries_onto-text_fields (insert k s acc) m (subst⁻¹ NodupKeys same h) ∙ same

pub env_stable :
    (o : Option (Dict String))
    → DistinctKeys o
    → env_write (parse_environment (reread (env_write o))) ≡ env_write o
unfolding env_write parse_environment
env_stable none h = refl
env_stable (some []) h = refl
env_stable (some ((k, s) ∷ m)) h =
    ap (λ t. env_write (some t)) (entries_onto-text_fields [] ((k, s) ∷ m) h)

-- What is read of a printed ulimit.
ulimit_of-ulimit_value : (u : Ulimit) → ulimit_of (ulimit_value u) ≡ some u
unfolding get
ulimit_of-ulimit_value u = by_fields u.soft u.hard
  where
    by_fields :
        (a b : Option String)
        → ulimit_of (ulimit_value (record { soft = a; hard = b }))
          ≡ some (record { soft = a; hard = b })
    by_fields none none = refl
    by_fields none (some b) = refl
    by_fields (some a) none = refl
    by_fields (some a) (some b) = ground (arith, eq_iff a b)

ulimits_onto-fields :
    (acc m : Dict Ulimit)
    → NodupKeys (acc ++ m)
    → ulimits_onto acc (fields (ulimit_fields m)) ≡ acc ++ m
unfolding ulimits_onto ulimit_fields
ulimits_onto-fields acc [] h = sym (append-nil acc)
ulimits_onto-fields acc ((k, u) ∷ m) h =
    let same = insert-middle acc k u m h in
    rw (ulimit_of-ulimit_value u, ulimits_onto)
      (ulimits_onto-fields (insert k u acc) m (subst⁻¹ NodupKeys same h) ∙ same)

pub ulimits_stable :
    (o : Option (Dict Ulimit))
    → DistinctKeys o
    → ulimits_write (parse_ulimits (reread (ulimits_write o))) ≡ ulimits_write o
unfolding ulimits_write parse_ulimits
ulimits_stable none h = refl
ulimits_stable (some []) h = refl
ulimits_stable (some ((k, u) ∷ m)) h =
    ap (λ t. ulimits_write (some t)) (ulimits_onto-fields [] ((k, u) ∷ m) h)

-- The dependencies as entries of the object that holds them.
abbrev pub dependency_map : List DependsOnEntry → Dict Value
dependency_map [] = []
dependency_map (d ∷ ds) = (d.service, condition_object d) ∷ dependency_map ds

fields-deps_onto :
    (fs : Fields) (ds : List DependsOnEntry)
    → NodupKeys (fields fs ++ dependency_map ds)
    → fields (deps_onto fs ds) ≡ fields fs ++ dependency_map ds
unfolding deps_onto
fields-deps_onto fs [] h = sym (append-nil (fields fs))
fields-deps_onto fs (d ∷ ds) h =
    let v = condition_object d in
    let put_in = fields-put d.service v fs in
    let same =
      ap (λ m. m ++ dependency_map ds) put_in
      ∙ insert-middle (fields fs) d.service v (dependency_map ds) h in
    fields-deps_onto (put d.service v fs) ds (subst⁻¹ NodupKeys same h) ∙ same

-- The dependency with its condition filled in.
abbrev settle : DependsOnEntry → DependsOnEntry
settle d = record d { condition = coalesce d.condition started }

coalesce_twice : (v : Value) → coalesce (coalesce v started) started ≡ coalesce v started
coalesce_twice undefined = refl
coalesce_twice null = refl
coalesce_twice (bool b) = refl
coalesce_twice (num n) = refl
coalesce_twice (str s) = refl
coalesce_twice (arr vs) = refl
coalesce_twice (obj fs) = refl

is_started-settle :
    (k : String) (v : Value)
    → is_started (settle (record { service = k; condition = v }))
      ≡ is_started (record { service = k; condition = v })
is_started-settle k undefined = refl
is_started-settle k null = refl
is_started-settle k (bool b) = refl
is_started-settle k (num n) = refl
is_started-settle k (str s) = refl
is_started-settle k (arr vs) = refl
is_started-settle k (obj fs) = refl

map-keyed_dependency :
    (ds : List DependsOnEntry) → map keyed_dependency (dependency_map ds) ≡ map settle ds
unfolding member
map-keyed_dependency [] = refl
map-keyed_dependency (d ∷ ds) = rw (coalesce_twice d.condition, map-keyed_dependency ds) refl

all-is_started-settle :
    (ds : List DependsOnEntry) → all is_started (map settle ds) ≡ all is_started ds
all-is_started-settle [] = refl
all-is_started-settle (d ∷ ds) =
    rw (is_started-settle d.service d.condition, all-is_started-settle ds) refl

deps_onto-settle :
    (fs : Fields) (ds : List DependsOnEntry) → deps_onto fs (map settle ds) ≡ deps_onto fs ds
unfolding deps_onto
deps_onto-settle fs [] = refl
deps_onto-settle fs (d ∷ ds) =
    rw (coalesce_twice d.condition, deps_onto)
      (deps_onto-settle (put d.service (condition_object d) fs) ds)

-- The names that a list of plain names is read back as.
abbrev renamed : List DependsOnEntry → List DependsOnEntry
renamed ds = map plain_dependency (items (service_items ds))

renamed-started : (ds : List DependsOnEntry) → all is_started (renamed ds) ≡ true
renamed-started [] = refl
renamed-started (d ∷ ds) = renamed-started ds

renamed-items : (ds : List DependsOnEntry) → service_items (renamed ds) ≡ service_items ds
unfolding to_text
renamed-items [] = refl
renamed-items (d ∷ ds) = ap (λ vs. Items.cons (str d.service) vs) (renamed-items ds)

depends_value-renamed :
    (ds : List DependsOnEntry) → depends_value (renamed ds) ≡ arr (service_items ds)
unfolding depends_value
depends_value-renamed ds = rw (renamed-started ds, renamed-items ds) refl

depends_value-settle :
    (ds : List DependsOnEntry)
    → all is_started ds ≡ false
    → depends_value (map settle ds) ≡ obj (deps_onto end ds)
unfolding depends_value
depends_value-settle ds h = rw (all-is_started-settle ds, h) (ap obj (deps_onto-settle end ds))

-- Each service is named once, or nothing but the names is written.
abbrev pub DistinctServices : Option (List DependsOnEntry) → Type 0
DistinctServices none = Unit
DistinctServices (some ds) = (all is_started ds ≡ true) ⊎ NodupKeys (dependency_map ds)

keyed_again :
    (d : DependsOnEntry) (ds : List DependsOnEntry)
    → all is_started (d ∷ ds) ≡ false
    → NodupKeys (dependency_map (d ∷ ds))
    → depends_write (parse_depends_on (obj (deps_onto end (d ∷ ds))))
      ≡ some (obj (deps_onto end (d ∷ ds)))
unfolding parse_depends_on depends_write
keyed_again d ds h u =
    let read =
      ap (map keyed_dependency) (fields-deps_onto end (d ∷ ds) u) ∙ map-keyed_dependency (d ∷ ds) in
    ap (λ l. depends_write (some l)) read ∙ ap some (depends_value-settle (d ∷ ds) h)

plain_again :
    (d : DependsOnEntry) (ds : List DependsOnEntry)
    → depends_write (parse_depends_on (arr (service_items (d ∷ ds))))
      ≡ some (arr (service_items (d ∷ ds)))
unfolding parse_depends_on depends_write
plain_again d ds = ap some (depends_value-renamed (d ∷ ds))

pub depends_stable :
    (o : Option (List DependsOnEntry))
    → DistinctServices o
    → depends_write (parse_depends_on (reread (depends_write o))) ≡ depends_write o
unfolding depends_write parse_depends_on depends_value
depends_stable none h = refl
depends_stable (some []) h = refl
depends_stable (some (d ∷ ds)) h = elim (Bool-cases (all is_started (d ∷ ds))) [
  | inl t ↦ rw t (plain_again d ds)
  | inr f ↦ rw f (elim h [ inl t ↦ absurd (true≢false (sym t ∙ f)) | inr u ↦ keyed_again d ds f u ])
]
