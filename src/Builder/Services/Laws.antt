-- ===== src/Builder/Services/Laws.antt =====
-- What renaming, removing and adding a service makes of a file.
use mathlib.Core.List.{append_assoc}
use mathlib.Core.Path.{subst}
use vps_pilot.Base.{
  String, ◌≡◌, refl, sym, ap, ◌∙◌, false, ◌||◌, Option, none, some, List, [], ◌∷◌, ◌++◌, ◌==◌,
  eq_iff, eq_refl, arith, if◌then◌else◌, map, Bool-cases, inl, inr,
}
use vps_pilot.Base.Dict.{Dict, insert, has_key, NodupKeys, has_key-append, has_key-middle}
use vps_pilot.Compose.Service.{ComposeFile, ComposeService, DependsOnEntry}
use vps_pilot.Builder.Keys.Laws.{renamed, rename_key-renamed, renamed-NodupKeys}
use vps_pilot.Builder.Services.{
  redirect, redirect_all, assign_redirected, redirect_onto, rename_service,
}

-- An assignment to a key in the middle.
insert-at :
    (d : Dict ComposeService) (k : String) (v w : ComposeService) (n : Dict ComposeService)
    → has_key k d ≡ false
    → insert k w (d ++ (k, v) ∷ n) ≡ d ++ (k, w) ∷ n
unfolding insert has_key
insert-at [] k v w n h = rw (eq_refl k) refl
insert-at ((j, x) ∷ d) k v w n h = ground (arith, eq_iff j k, insert-at d k v w n)

-- A service whose dependencies are redirected.
abbrev redirect_service : String → String → ComposeService → ComposeService
redirect_service old new svc = record svc { depends_on = redirect_all old new svc.depends_on }

abbrev redirected : String → String → String × ComposeService → String × ComposeService
redirected old new (k, svc) = (k, redirect_service old new svc)

redirect_step :
    (old new k : String) (svc : ComposeService) (o : Option (List DependsOnEntry))
    → svc.depends_on ≡ o
    → (pre es : Dict ComposeService) → has_key k pre ≡ false
    → assign_redirected old new k svc o (pre ++ (k, svc) ∷ es)
      ≡ pre ++ (k, record svc { depends_on = redirect_all old new o }) ∷ es
redirect_step old new k svc none p pre es h =
    ap (λ (o : Option (List DependsOnEntry)). pre ++ (k, record svc { depends_on = o }) ∷ es) p
redirect_step old new k svc (some ds) p pre es h =
    insert-at pre k svc (record svc { depends_on = some (map (redirect old new) ds) }) es h

has_key-redirected :
    (old new k : String) (d : Dict ComposeService)
    → has_key k (map (redirected old new) d) ≡ has_key k d
unfolding has_key
has_key-redirected old new k [] = refl
has_key-redirected old new k ((j, svc) ∷ d) = ap (λ b. j == k || b) (has_key-redirected old new k d)

redirected-NodupKeys :
    (old new : String) (d : Dict ComposeService)
    → NodupKeys d
    → NodupKeys (map (redirected old new) d)
redirected-NodupKeys old new [] u = tt
redirected-NodupKeys old new ((k, svc) ∷ d) (h, u) =
    (has_key-redirected old new k d ∙ h, redirected-NodupKeys old new d u)

NodupKeys-swap :
    (pre : Dict ComposeService) (k : String) (v w : ComposeService) (es : Dict ComposeService)
    → NodupKeys (pre ++ (k, v) ∷ es)
    → NodupKeys (pre ++ (k, w) ∷ es)
unfolding has_key
NodupKeys-swap [] k v w es u = u
NodupKeys-swap ((j, x) ∷ pre) k v w es (h, u) = (
  has_key-append j pre ((k, w) ∷ es) ∙ sym (has_key-append j pre ((k, v) ∷ es)) ∙ h,
  NodupKeys-swap pre k v w es u,
)

redirect_onto-append :
    (old new : String) (pre es : Dict ComposeService)
    → NodupKeys (pre ++ es)
    → redirect_onto old new es (pre ++ es) ≡ pre ++ map (redirected old new) es
unfolding redirect_onto
redirect_onto-append old new pre [] u = refl
redirect_onto-append old new pre ((k, svc) ∷ es) u =
    let svc' = redirect_service old new svc in
    let a = append_assoc pre ((k, svc') ∷ []) es in
    ap (redirect_onto old new es) (
      redirect_step old new k svc svc.depends_on refl pre es (has_key-middle pre k svc es u)
      ∙ sym a)
    ∙ redirect_onto-append old new (pre ++ (k, svc') ∷ []) es
        (subst NodupKeys (sym a) (NodupKeys-swap pre k svc svc' es u))
    ∙ append_assoc pre ((k, svc') ∷ []) (map (redirected old new) es)

-- One entry of the file after a renaming.
abbrev pub renamed_entry : String → String → String × ComposeService → String × ComposeService
renamed_entry old new (k, svc) = (if k == old then new else k, redirect_service old new svc)

map-map :
    (old new : String) (d : Dict ComposeService)
    → map (redirected old new) (map (renamed old new) d) ≡ map (renamed_entry old new) d
map-map old new [] = refl
map-map old new ((k, svc) ∷ d) = ap (λ es. renamed_entry old new (k, svc) ∷ es) (map-map old new d)

-- A renaming to a free name keeps the number of services and their order, and redirects what depends
-- on the old name; a renaming to a taken name changes nothing.
pub rename_service-entries :
    (old new : String) (cf : ComposeFile)
    → NodupKeys cf.services
    → rename_service old new cf ≡ (
        if has_key new cf.services
        then cf
        else record cf { services = map (renamed_entry old new) cf.services })
unfolding rename_service
rename_service-entries old new cf u = elim (Bool-cases (has_key new cf.services)) [
  | inl taken ↦ rw taken refl
  | inr free ↦ rw free (
      ap (λ (d : Dict ComposeService). record cf { services = d })
        (ap (λ next. redirect_onto old new next next)
            (rename_key-renamed old new cf.services free u)
          ∙ redirect_onto-append old new [] (map (renamed old new) cf.services)
              (renamed-NodupKeys old new cf.services free u)
          ∙ map-map old new cf.services))
]

pub renamed_entry-NodupKeys :
    (old new : String) (d : Dict ComposeService)
    → has_key new d ≡ false
    → NodupKeys d
    → NodupKeys (map (renamed_entry old new) d)
renamed_entry-NodupKeys old new d f u =
    subst NodupKeys (map-map old new d)
      (redirected-NodupKeys old new (map (renamed old new) d) (renamed-NodupKeys old new d f u))
