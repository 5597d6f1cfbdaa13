-- ===== src/Builder/Used/Again.antt =====
-- components/compose/ComposeBuilder.tsx: a second run of `syncTopLevelVolumes`.

use mathlib.Core.Path.{subst}
use vps_pilot.Base.{
  String, ◌≡◌, refl, sym, ap, ◌∙◌, true, List, [], ◌∷◌, eq_iff, arith, All, Bool-cases, inl, inr,
}
use vps_pilot.Base.Dict.{Dict, has_key, NodupKeys}
use vps_pilot.Js.{Value}
use vps_pilot.Base.Sets.{has}
use vps_pilot.Builder.Used.{is_unused, declare_all, sync_volumes}
use vps_pilot.Builder.Used.Laws.{
  declare_all-NodupKeys, has-declare_all, has_key-kept, kept, sync_volumes-kept,
}

-- Every name of the list is a key.
abbrev AllDeclared : List String → Dict Value → Type 0
AllDeclared used d = All (λ vol. has_key vol d ≡ true) used

declare_all-again :
    (used : List String) (d : Dict Value) → AllDeclared used d → declare_all used d ≡ d
unfolding declare_all
declare_all-again [] d h = refl
declare_all-again (vol ∷ vols) d (h, hs) = rw h (declare_all-again vols d hs)

kept-again : (used : List String) (d : Dict Value) → kept used (kept used d) ≡ kept used d
kept-again used [] = refl
kept-again used ((vol, config) ∷ d) = elim (Bool-cases (is_unused used vol config)) [
  | inl t ↦ rw t (kept-again used d)
  | inr f ↦ rw (f, f) (ap (λ es. (vol, config) ∷ es) (kept-again used d))
]

kept-has :
    (used : List String) (k : String) (d : Dict Value)
    → has k used ≡ true
    → has_key k (kept used d) ≡ has_key k d
unfolding has_key
kept-has used k [] h = refl
kept-has used k ((j, c) ∷ d) h = ground (arith, eq_iff j k, kept-has used k d)

-- The keys that a list of names declares, seen from a part of it.
declared_from :
    (used part : List String) (d : Dict Value)
    → All (λ vol. has vol used ≡ true) part
    → AllDeclared part (kept used (declare_all used d))
declared_from used [] d h = tt
declared_from used (vol ∷ part) d (h, hs) = (
  kept-has used vol (declare_all used d) h ∙ has-declare_all used vol d ∙ rw h refl,
  declared_from used part d hs,
)

All-has-cons :
    (n : String) (used part : List String)
    → All (λ vol. has vol used ≡ true) part
    → All (λ vol. has vol (n ∷ used) ≡ true) part
All-has-cons n used [] h = tt
All-has-cons n used (vol ∷ part) (h, hs) = (ground arith, All-has-cons n used part hs)

All-has : (used : List String) → All (λ vol. has vol used ≡ true) used
All-has [] = tt
All-has (n ∷ ns) = (ground (arith, eq_iff n n), All-has-cons n ns ns (All-has ns))

kept-NodupKeys : (used : List String) (d : Dict Value) → NodupKeys d → NodupKeys (kept used d)
kept-NodupKeys used [] u = tt
kept-NodupKeys used ((vol, config) ∷ d) (h, u) = elim (Bool-cases (is_unused used vol config)) [
  | inl t ↦ rw t (kept-NodupKeys used d u)
  | inr f ↦ rw f (has_key-kept used vol d h, kept-NodupKeys used d u)
]

sync_volumes-NodupKeys :
    (used : List String) (d : Dict Value) → NodupKeys d → NodupKeys (sync_volumes used d)
sync_volumes-NodupKeys used d u =
    subst NodupKeys (sym (sync_volumes-kept used d u))
      (kept-NodupKeys used (declare_all used d) (declare_all-NodupKeys used d u))

-- A second synchronisation changes nothing.
pub sync_volumes-again :
    (used : List String) (d : Dict Value)
    → NodupKeys d
    → sync_volumes used (sync_volumes used d) ≡ sync_volumes used d
sync_volumes-again used d u =
    let e = sync_volumes-kept used d u in
    sync_volumes-kept used (sync_volumes used d) (sync_volumes-NodupKeys used d u)
    ∙ ap (λ m. kept used (declare_all used m)) e
    ∙ ap (kept used) (
        declare_all-again used (kept used (declare_all used d))
          (declared_from used used d (All-has used)))
    ∙ kept-again used (declare_all used d)
    ∙ sym e
