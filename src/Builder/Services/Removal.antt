-- ===== src/Builder/Services/Removal.antt =====
-- components/compose/ComposeBuilder.tsx: `removeService`, and the dependencies that it leaves.
use vps_pilot.Base.{
  String, ◌≡◌, ◌↔◌, refl, sym, ap, ◌∙◌, Bool, true, false, ◌||◌, Option, none, some, List, [], ◌∷◌,
  ◌==◌, eq_iff, eq_refl, arith, if◌then◌else◌, Bool-cases, inl, inr,
}
use vps_pilot.Base.Text.{same_text}
use vps_pilot.Base.Dict.{Dict, erase, has_key, NodupKeys}
use vps_pilot.Compose.Service.{ComposeFile, ComposeService, DependsOnEntry}
use vps_pilot.Builder.Services.{remove_service}
use vps_pilot.Builder.Services.Links.{DepsIn, LinksIn, IsLinked}

abbrev any_dep : String → List DependsOnEntry → Bool
any_dep name [] = false
any_dep name (d ∷ ds) = d.service == name || any_dep name ds

abbrev deps_mention : String → Option (List DependsOnEntry) → Bool
deps_mention name none = false
deps_mention name (some ds) = any_dep name ds

-- Some service depends on this one.
abbrev pub mentions : String → Dict ComposeService → Bool
mentions name [] = false
mentions name ((k, svc) ∷ d) = deps_mention name svc.depends_on || mentions name d

has_key-erase :
    (name n : String) (d : Dict ComposeService)
    → has_key n (erase name d) ≡ (if name == n then false else has_key n d)
unfolding has_key erase
has_key-erase name n [] = ground arith
has_key-erase name n ((j, w) ∷ d) =
    ground (arith, eq_iff j name, eq_iff name n, eq_iff j n, has_key-erase name n d)

erase-NodupKeys : (name : String) (d : Dict ComposeService) → NodupKeys d → NodupKeys (erase name d)
unfolding erase
erase-NodupKeys name [] u = tt
erase-NodupKeys name ((j, w) ∷ d) (h, u) = elim (Bool-cases (j == name)) [
  | inl t ↦ rw t (erase-NodupKeys name d u)
  | inr f ↦ rw f (has_key-erase name j d ∙ rw h (if_false (name == j)), erase-NodupKeys name d u)
]
  where
    if_false : (b : Bool) → (if b then false else false) ≡ false
    if_false true = refl
    if_false false = refl

deps_unmentioned :
    (name : String) (known : String → Bool) (o : Option (List DependsOnEntry))
    → known name ≡ false
    → DepsIn known o
    → deps_mention name o ≡ false
deps_unmentioned name known none f h = refl
deps_unmentioned name known (some []) f h = refl
deps_unmentioned name known (some (d ∷ ds)) f (h, hs) = elim (Bool-cases (d.service == name)) [
  | inl t ↦ let bad : known name ≡ true = ap known (sym (same_text d.service name t)) ∙ h in cc
  | inr e ↦ rw e (deps_unmentioned name known (some ds) f hs)
]

unmentioned :
    (name : String) (known : String → Bool) (d : Dict ComposeService)
    → known name ≡ false
    → LinksIn known d
    → mentions name d ≡ false
unmentioned name known [] f h = refl
unmentioned name known ((k, svc) ∷ d) f (h, hs) =
    rw (deps_unmentioned name known svc.depends_on f h) (unmentioned name known d f hs)

deps_known :
    (name : String) (known known' : String → Bool) (o : Option (List DependsOnEntry))
    → ((n : String) → (n == name) ≡ false → known n ≡ true → known' n ≡ true)
    → DepsIn known o
    → deps_mention name o ≡ false
    → DepsIn known' o
deps_known name known known' none step h m = tt
deps_known name known known' (some []) step h m = tt
deps_known name known known' (some (d ∷ ds)) step (h, hs) m =
    elim (Bool-cases (d.service == name)) [
      | inl t ↦ let bad : true ≡ false = rw t at m in cc
      | inr e ↦ (step d.service e h, deps_known name known known' (some ds) step hs (rw e at m))
    ]

or_split : (a b : Bool) → (a || b) ≡ false → (a ≡ false) × (b ≡ false)
or_split false b h = (refl, h)
or_split true b h = cc

links_known :
    (name : String) (known known' : String → Bool) (d : Dict ComposeService)
    → ((n : String) → (n == name) ≡ false → known n ≡ true → known' n ≡ true)
    → LinksIn known (erase name d)
    → mentions name (erase name d) ≡ false
    → LinksIn known' (erase name d)
links_known name known known' d step h m = go (erase name d) h m
  where
    go : (e : Dict ComposeService) → LinksIn known e → mentions name e ≡ false → LinksIn known' e
    go [] h m = tt
    go ((k, svc) ∷ e) (h, hs) m =
        let (m1, m2) = or_split (deps_mention name svc.depends_on) (mentions name e) m in
        (deps_known name known known' svc.depends_on step h m1, go e hs m2)

links_erase :
    (known : String → Bool) (name : String) (d : Dict ComposeService)
    → LinksIn known d
    → LinksIn known (erase name d)
unfolding erase
links_erase known name [] h = tt
links_erase known name ((j, w) ∷ d) (h, hs) = elim (Bool-cases (j == name)) [
  | inl t ↦ rw t (links_erase known name d hs)
  | inr f ↦ rw f (h, links_erase known name d hs)
]

kept_key :
    (name n : String) (d : Dict ComposeService)
    → (n == name) ≡ false
    → has_key n d ≡ true
    → has_key n (erase name d) ≡ true
kept_key name n d e h = has_key-erase name n d ∙ rw h (ground (arith, eq_iff name n, eq_iff n name))

gone_key : (name : String) (d : Dict ComposeService) → has_key name (erase name d) ≡ false
gone_key name d = has_key-erase name name d ∙ rw (eq_refl name) refl

-- Removing a service keeps every dependency on a service of the file exactly if no other service
-- depends on the removed one: the code does not look.
pub remove_service-IsLinked_iff :
    (name : String) (cf : ComposeFile)
    → IsLinked cf
    → IsLinked (remove_service name cf) ↔ (mentions name (erase name cf.services) ≡ false)
unfolding remove_service
remove_service-IsLinked_iff name cf v = (
  λ after.
      unmentioned name (λ n. has_key n (erase name cf.services)) (erase name cf.services)
        (gone_key name cf.services) after.linked,
  λ m. record {
    distinct = erase-NodupKeys name cf.services v.distinct;
    linked =
        links_known name (λ n. has_key n cf.services) (λ n. has_key n (erase name cf.services))
          cf.services
          (λ n (e : (n == name) ≡ false) (h : has_key n cf.services ≡ true).
            kept_key name n cf.services e h)
          (links_erase (λ n. has_key n cf.services) name cf.services v.linked) m;
  },
)
