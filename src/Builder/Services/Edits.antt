-- ===== src/Builder/Services/Edits.antt =====
-- components/compose/ComposeBuilder.tsx: a session of edits on the services of a file.
use mathlib.Core.Path.{subst}
use vps_pilot.Base.{
  String, ◌≡◌, refl, sym, ap, ◌∙◌, Bool, true, false, ◌||◌, Option, none, some, List, [], ◌∷◌, ◌==◌,
  if◌then◌else◌, Bool-cases, inl, inr,
}
use vps_pilot.Base.Dict.{
  Dict, insert, erase, has_key, keys, lookup, NodupKeys, has_key-insert, insert-NodupKeys,
  lookup-insert,
}
use vps_pilot.Js.{ok}
use vps_pilot.Compose.Service.{ComposeFile, ComposeService, DependsOnEntry}
use vps_pilot.Base.Sets.{has}
use vps_pilot.Builder.Used.Sync.{sync-services}
use vps_pilot.Builder.Keys.Free.{free_from-is_free}
use vps_pilot.Builder.Services.{
  update_service, rename_service, remove_service, new_service, free_service_name, add_service,
}
use vps_pilot.Builder.Services.Removal.{mentions, remove_service-IsLinked_iff}
use vps_pilot.Builder.Services.Links.{or_true, DepsIn, LinksIn, IsLinked, rename_service-IsLinked}

deps_weaken :
    (known known' : String → Bool) (o : Option (List DependsOnEntry))
    → ((n : String) → known n ≡ true → known' n ≡ true)
    → DepsIn known o
    → DepsIn known' o
deps_weaken known known' none step h = tt
deps_weaken known known' (some []) step h = tt
deps_weaken known known' (some (d ∷ ds)) step (h, hs) =
    (step d.service h, deps_weaken known known' (some ds) step hs)

links_weaken :
    (known known' : String → Bool) (d : Dict ComposeService)
    → ((n : String) → known n ≡ true → known' n ≡ true)
    → LinksIn known d
    → LinksIn known' d
links_weaken known known' [] step h = tt
links_weaken known known' ((k, svc) ∷ d) step (h, hs) =
    (deps_weaken known known' svc.depends_on step h, links_weaken known known' d step hs)

links_insert :
    (known : String → Bool) (k : String) (svc : ComposeService) (d : Dict ComposeService)
    → DepsIn known svc.depends_on
    → LinksIn known d
    → LinksIn known (insert k svc d)
unfolding insert
links_insert known k svc [] n h = (n, tt)
links_insert known k svc ((j, w) ∷ d) n (h, hs) = elim (Bool-cases (j == k)) [
  | inl t ↦ rw t (n, hs)
  | inr f ↦ rw f (h, links_insert known k svc d n hs)
]

has_key-insert_old :
    (k n : String) (svc : ComposeService) (d : Dict ComposeService)
    → has_key n d ≡ true
    → has_key n (insert k svc d) ≡ true
has_key-insert_old k n svc d h = has_key-insert k n svc d ∙ rw h (or_true (k == n))

-- A service is set, whose dependencies are services of the file or the service itself.
set_service-IsLinked :
    (k : String) (svc : ComposeService) (cf : ComposeFile)
    → DepsIn (λ n. has_key n (insert k svc cf.services)) svc.depends_on
    → IsLinked cf
    → IsLinked (record cf { services = insert k svc cf.services })
set_service-IsLinked k svc cf known v = record {
  distinct = insert-NodupKeys k svc cf.services v.distinct;
  linked =
      links_insert (λ n. has_key n (insert k svc cf.services)) k svc cf.services known
        (links_weaken (λ n. has_key n cf.services) (λ n. has_key n (insert k svc cf.services))
          cf.services
          (λ n (h : has_key n cf.services ≡ true). has_key-insert_old k n svc cf.services h)
          v.linked);
}

update_service-IsLinked :
    (name : String) (svc : ComposeService) (cf : ComposeFile) {cf' : ComposeFile}
    → DepsIn (λ n. has_key n (insert name svc cf.services)) svc.depends_on
    → update_service name svc cf ≡ ok cf'
    → IsLinked cf
    → IsLinked cf'
unfolding update_service
update_service-IsLinked name svc cf {cf'} known h v =
    let made = set_service-IsLinked name svc cf known v in
    let same = sync-services (record cf { services = insert name svc cf.services }) h in
    record {
      distinct = subst (λ (d : Dict ComposeService). NodupKeys d) (sym same) made.distinct;
      linked =
          subst (λ (d : Dict ComposeService). LinksIn (λ n. has_key n d) d) (sym same) made.linked;
    }

has-keys : (n : String) (d : Dict ComposeService) → has n (keys d) ≡ has_key n d
unfolding has_key
has-keys n [] = refl
has-keys n ((k, svc) ∷ d) = ap (λ b. k == n || b) (has-keys n d)

-- The name that a new service gets is not taken.
free_service_name-is_free : (d : Dict ComposeService) → has_key (free_service_name d) d ≡ false
unfolding free_service_name
free_service_name-is_free d =
    free_from-is_free "service" (λ n. has_key n d) (keys d)
      (λ n (h : has_key n d ≡ true). has-keys n d ∙ h)

add_service-IsLinked : (cf : ComposeFile) → IsLinked cf → IsLinked (add_service cf)
unfolding add_service
add_service-IsLinked cf v = set_service-IsLinked (free_service_name cf.services) new_service cf tt v

-- The search for a name ends with one that is not taken: the new service is added under it, and
-- the others stay.
pub add_service_lem :
    (cf : ComposeFile) (k : String)
    → (has_key (free_service_name cf.services) cf.services ≡ false)
      × (lookup k (add_service cf).services
          ≡ (if free_service_name cf.services == k then some new_service else lookup k cf.services))
unfolding add_service
add_service_lem cf k = (
  free_service_name-is_free cf.services,
  lookup-insert (free_service_name cf.services) k new_service cf.services,
)

-- One edit, as the cards and the buttons of the builder make them. A service can be removed that
-- nothing else depends on.
pub data Edit : ComposeFile → ComposeFile → Type 0 where
  update :
      {cf cf' : ComposeFile} (name : String) (svc : ComposeService)
      → DepsIn (λ n. has_key n (insert name svc cf.services)) svc.depends_on
      → update_service name svc cf ≡ ok cf'
      → Edit cf cf'
  rename : {cf cf' : ComposeFile} (old new : String) → rename_service old new cf ≡ cf' → Edit cf cf'
  remove :
      {cf cf' : ComposeFile} (name : String)
      → mentions name (erase name cf.services) ≡ false
      → remove_service name cf ≡ cf'
      → Edit cf cf'
  add : {cf cf' : ComposeFile} → add_service cf ≡ cf' → Edit cf cf'

-- Any number of edits.
pub data Session : ComposeFile → ComposeFile → Type 0 where
  start : {cf : ComposeFile} → Session cf cf
  then_edit : {cf mid cf' : ComposeFile} → Session cf mid → Edit mid cf' → Session cf cf'

edit-IsLinked : {cf cf' : ComposeFile} → Edit cf cf' → IsLinked cf → IsLinked cf'
edit-IsLinked {cf} (update name svc known h) v = update_service-IsLinked name svc cf known h v
edit-IsLinked {cf} (rename old new h) v = subst IsLinked h (rename_service-IsLinked old new cf v)
edit-IsLinked {cf} (remove name m h) v =
    subst IsLinked h ((remove_service-IsLinked_iff name cf v).1 m)
edit-IsLinked {cf} (add h) v = subst IsLinked h (add_service-IsLinked cf v)

-- Through any session of edits in which no service is removed that others depend on, and updated
-- services depend on services of the file, the names of the services stay distinct and every
-- dependency names a service of the file.
pub session-IsLinked : {cf cf' : ComposeFile} → Session cf cf' → IsLinked cf → IsLinked cf'
session-IsLinked start v = v
session-IsLinked (then_edit s e) v = edit-IsLinked e (session-IsLinked s v)
