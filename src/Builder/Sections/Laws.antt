-- ===== src/Builder/Sections/Laws.antt =====
-- The dependencies that are offered.
use vps_pilot.Base.{
  String, ◌≡◌, refl, sym, ap, ◌∙◌, Bool, true, false, not, ◌&&◌, ◌||◌, List, [], ◌∷◌, ◌++◌, ◌==◌,
  eq_iff, arith, Bool-cases, inl, inr,
}
use vps_pilot.Base.Text.{nonempty}
use vps_pilot.Js.{str}
use vps_pilot.Base.Sets.{has}
use vps_pilot.Compose.Service.{DependsOnEntry}
use vps_pilot.Builder.Sections.{depends, available, add_dependency}

-- No service is named twice.
abbrev NamesOnce : List DependsOnEntry → Type 0
NamesOnce [] = Unit
NamesOnce (d ∷ ds) = (depends d.service ds ≡ false) × NamesOnce ds

depends-same : (n s : String) (deps : List DependsOnEntry) → n ≡ s → depends n deps ≡ depends s deps
depends-same n s deps e = ap (λ k. depends k deps) e

depends-append :
    (k : String) (deps : List DependsOnEntry) (d : DependsOnEntry)
    → depends k (deps ++ d ∷ []) ≡ (depends k deps || d.service == k)
depends-append k [] d = ground arith
depends-append k (e ∷ deps) d = ground (arith, depends-append k deps d)

has-available :
    (deps : List DependsOnEntry) (s : String) (ss : List String)
    → has s (available deps ss) ≡ (has s ss && not (depends s deps))
unfolding available
has-available deps s [] = refl
has-available deps s (n ∷ ss) =
    ground (arith, eq_iff n s, depends-same n s deps, has-available deps s ss)

append-NamesOnce :
    (d : DependsOnEntry) (deps : List DependsOnEntry)
    → depends d.service deps ≡ false
    → NamesOnce deps
    → NamesOnce (deps ++ d ∷ [])
append-NamesOnce d [] f h = (refl, tt)
append-NamesOnce d (e ∷ deps) f (h, hs) = ground (
  arith,
  eq_iff e.service d.service,
  eq_iff d.service e.service,
  depends-append e.service deps d,
  append-NamesOnce d deps,
)

and_split : (a b : Bool) → (a && not b) ≡ true → (a ≡ true) × (b ≡ false)
and_split true false h = (refl, refl)
and_split true true h = cc
and_split false b h = cc

-- Choosing one of the services that are offered adds a dependency on a service of the list, and no
-- dependency is named twice after it, if none was before.
chosen_dependency :
    (s : String) (all : List String) (deps : List DependsOnEntry)
    → has s (available deps all) ≡ true
    → NamesOnce deps
    → (has s all ≡ true) × NamesOnce (add_dependency s deps)
unfolding add_dependency
chosen_dependency s all deps h once =
    let (there, fresh) =
      and_split (has s all) (depends s deps) (sym (has-available deps s all) ∙ h) in
    (
      there,
      elim (Bool-cases (nonempty s)) [
        | inl t ↦ rw t (
            append-NamesOnce (record { service = s; condition = str "service_started" }) deps fresh
              once)
        | inr f ↦ rw f once
      ],
    )
