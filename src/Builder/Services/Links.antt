-- ===== src/Builder/Services/Links.antt =====
-- components/compose/ComposeBuilder.tsx: the names in `depends_on` through the edits of services.
use mathlib.Core.Path.{subst}
use vps_pilot.Base.{
  String, ◌≡◌, refl, sym, ap, ap₂, ◌∙◌, Bool, true, false, ◌||◌, Option, none, some, List, [], ◌∷◌,
  ◌==◌, eq_iff, eq_refl, arith, if◌then◌else◌, map, Bool-cases, inl, inr, All,
}
use vps_pilot.Base.Text.{same_text}
use vps_pilot.Base.Dict.{Dict, has_key, NodupKeys}
use vps_pilot.Compose.Service.{ComposeFile, ComposeService, DependsOnEntry}
use vps_pilot.Builder.Services.{redirect, redirect_all, rename_service}
use vps_pilot.Builder.Services.Laws.{renamed_entry, rename_service-entries, renamed_entry-NodupKeys}

-- What the dependencies name is known.
abbrev pub DepsIn : (String → Bool) → Option (List DependsOnEntry) → Type 0
DepsIn known none = Unit
DepsIn known (some ds) = All (λ d. known d.service ≡ true) ds

abbrev pub LinksIn : (String → Bool) → Dict ComposeService → Type 0
LinksIn known d = All (λ e. DepsIn known e.1.depends_on) d

-- Every dependency names a service of the file, and the names are distinct.
pub record IsLinked (cf : ComposeFile) : Type 0 where
  pub distinct : NodupKeys cf.services
  pub linked : LinksIn (λ n. has_key n cf.services) cf.services

abbrev target : String → String → String → String
target old new n = if n == old then new else n

pub or_true : (b : Bool) → (b || true) ≡ true
or_true true = refl
or_true false = refl

redirect-target :
    (old new : String) (d : DependsOnEntry)
    → (redirect old new d).service ≡ target old new d.service
redirect-target old new d = elim (Bool-cases (d.service == old)) [
  | inl t ↦ rw t refl
  | inr f ↦ rw f refl
]

has_key-target :
    (old new n : String) (d : Dict ComposeService)
    → has_key n d ≡ true
    → has_key (target old new n) (map (renamed_entry old new) d) ≡ true
unfolding has_key
has_key-target old new n [] h = cc
has_key-target old new n ((k, svc) ∷ d) h = elim (Bool-cases (k == n)) [
  | inl t ↦
      subst
        (λ j.
          (target old new j == target old new n
            || has_key (target old new n) (map (renamed_entry old new) d))
          ≡ true)
        (sym (same_text k n t)) (rw (eq_refl (target old new n)) refl)
  | inr f ↦
      rw (has_key-target old new n d (rw f at h)) (or_true (target old new k == target old new n))
]

deps_redirected :
    (old new : String) (known known' : String → Bool) (o : Option (List DependsOnEntry))
    → ((n : String) → known n ≡ true → known' (target old new n) ≡ true)
    → DepsIn known o
    → DepsIn known' (redirect_all old new o)
deps_redirected old new known known' none step h = tt
deps_redirected old new known known' (some []) step h = tt
deps_redirected old new known known' (some (d ∷ ds)) step (h, hs) = (
  ap known' (redirect-target old new d) ∙ step d.service h,
  deps_redirected old new known known' (some ds) step hs,
)

links_redirected :
    (old new : String) (known known' : String → Bool) (d : Dict ComposeService)
    → ((n : String) → known n ≡ true → known' (target old new n) ≡ true)
    → LinksIn known d
    → LinksIn known' (map (renamed_entry old new) d)
links_redirected old new known known' [] step h = tt
links_redirected old new known known' ((k, svc) ∷ d) step (h, hs) = (
  deps_redirected old new known known' svc.depends_on step h,
  links_redirected old new known known' d step hs,
)

has_key-old :
    (old new : String) (d : Dict ComposeService)
    → has_key new d ≡ false
    → has_key old (map (renamed_entry old new) d) ≡ false
unfolding has_key
has_key-old old new [] h = refl
has_key-old old new ((k, svc) ∷ d) h =
    ground (arith, eq_iff k old, eq_iff k new, eq_iff new old, has_key-old old new d)

renamed_free :
    (old new : String) (cf : ComposeFile)
    → NodupKeys cf.services
    → has_key new cf.services ≡ false
    → rename_service old new cf ≡ record cf { services = map (renamed_entry old new) cf.services }
renamed_free old new cf u free = rename_service-entries old new cf u ∙ rw free refl

renamed_taken :
    (old new : String) (cf : ComposeFile)
    → NodupKeys cf.services
    → has_key new cf.services ≡ true
    → rename_service old new cf ≡ cf
renamed_taken old new cf u taken = rename_service-entries old new cf u ∙ rw taken refl

-- Renaming a service keeps the names distinct and every dependency on a service of the file.
pub rename_service-IsLinked :
    (old new : String) (cf : ComposeFile) → IsLinked cf → IsLinked (rename_service old new cf)
rename_service-IsLinked old new cf v = elim (Bool-cases (has_key new cf.services)) [
  | inl taken ↦ subst IsLinked (sym (renamed_taken old new cf v.distinct taken)) v
  | inr free ↦ subst IsLinked (sym (renamed_free old new cf v.distinct free)) (record {
    distinct = renamed_entry-NodupKeys old new cf.services free v.distinct;
    linked =
        links_redirected old new (λ n. has_key n cf.services)
          (λ n. has_key n (map (renamed_entry old new) cf.services)) cf.services
          (λ n (h : has_key n cf.services ≡ true). has_key-target old new n cf.services h) v.linked;
  })
]

key_back : (old new k : String) → (k == new) ≡ false → target new old (target old new k) ≡ k
key_back old new k f = ground (arith, eq_iff k old, eq_iff k new, eq_iff new new)

redirect_back :
    (old new : String) (d : DependsOnEntry)
    → (d.service == new) ≡ false
    → redirect new old (redirect old new d) ≡ d
redirect_back old new d f =
    ground (arith, eq_iff d.service old, eq_iff d.service new, eq_iff new new)

unknown_ne :
    (known : String → Bool) (n m : String) → known n ≡ false → known m ≡ true → (m == n) ≡ false
unknown_ne known n m f h = elim (Bool-cases (m == n)) [
  | inl t ↦ let bad : known m ≡ false = ap known (same_text m n t) ∙ f in cc
  | inr e ↦ e
]

list_back :
    (old new : String) (known : String → Bool) (ds : List DependsOnEntry)
    → known new ≡ false
    → All (λ d. known d.service ≡ true) ds
    → map (redirect new old) (map (redirect old new) ds) ≡ ds
list_back old new known [] f h = refl
list_back old new known (d ∷ ds) f (h, hs) =
    ap₂ (λ e es. e ∷ es) (redirect_back old new d (unknown_ne known new d.service f h))
      (list_back old new known ds f hs)

deps_back :
    (old new : String) (known : String → Bool) (o : Option (List DependsOnEntry))
    → known new ≡ false
    → DepsIn known o
    → redirect_all new old (redirect_all old new o) ≡ o
deps_back old new known none f h = refl
deps_back old new known (some ds) f h = ap some (list_back old new known ds f h)

or_left : (a b : Bool) → (a || b) ≡ false → a ≡ false
or_left false b h = refl
or_left true b h = cc

or_right : (a b : Bool) → (a || b) ≡ false → b ≡ false
or_right false b h = h
or_right true b h = cc

entries_back :
    (old new : String) (known : String → Bool) (d : Dict ComposeService)
    → known new ≡ false
    → has_key new d ≡ false
    → LinksIn known d
    → map (renamed_entry new old) (map (renamed_entry old new) d) ≡ d
unfolding has_key
entries_back old new known [] f g h = refl
entries_back old new known ((k, svc) ∷ d) f g (h, hs) =
    let free : (k == new) ≡ false = or_left (k == new) (has_key new d) g in
    ap₂ (λ e es. e ∷ es)
      (ap₂ (λ (n : String) (o : Option (List DependsOnEntry)). (n, record svc { depends_on = o }))
        (key_back old new k free) (deps_back old new known svc.depends_on f h))
      (entries_back old new known d f (or_right (k == new) (has_key new d) g) hs)

-- A service that is renamed to a free name and back leaves the file as it was, if every dependency
-- names a service.
pub rename_service-back :
    (old new : String) (cf : ComposeFile)
    → IsLinked cf
    → has_key new cf.services ≡ false
    → rename_service new old (rename_service old new cf) ≡ cf
rename_service-back old new cf v free =
    ap (rename_service new old) (renamed_free old new cf v.distinct free)
    ∙ renamed_free new old (record cf { services = map (renamed_entry old new) cf.services })
        (renamed_entry-NodupKeys old new cf.services free v.distinct)
        (has_key-old old new cf.services free)
    ∙ ap (λ (d : Dict ComposeService). record cf { services = d })
        (entries_back old new (λ n. has_key n cf.services) cf.services free free v.linked)
