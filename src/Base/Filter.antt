-- ===== src/Base/Filter.antt =====
-- `xs.filter(p)`, and what holds of the elements that are kept.
use Prim.Native.Nat.{ℕ, zero, suc}
use mathlib.Core.Path.{◌≡◌, refl}
use mathlib.Core.Logic.{inl, inr}
use mathlib.Core.Bool.{Bool, true}
use mathlib.Core.Option.{Option, none, some}
use mathlib.Core.List.{List, [], ◌∷◌}
use vps_pilot.Base.Test.{if◌then◌else◌, All, Bool-cases}
use vps_pilot.Base.Lists.{get_elem?}

abbrev pub keep {ℓ} : {A : Type ℓ} → (A → Bool) → List A → List A
keep p [] = []
keep p (x ∷ xs) = let rest = keep p xs in if p x then x ∷ rest else rest

pub keep-All :
    {A : Type 0} (P : A → Type 0) (p : A → Bool) (xs : List A) → All P xs → All P (keep p xs)
keep-All P p [] h = tt
keep-All P p (x ∷ xs) (h, hs) = elim (Bool-cases (p x)) [
  | inl t ↦ rw t (h, keep-All P p xs hs)
  | inr f ↦ rw f (keep-All P p xs hs)
]

pub keep-tested : {A : Type 0} (p : A → Bool) (xs : List A) → All (λ x. p x ≡ true) (keep p xs)
keep-tested p [] = tt
keep-tested p (x ∷ xs) = elim (Bool-cases (p x)) [
  | inl t ↦ rw t (t, keep-tested p xs)
  | inr f ↦ rw f (keep-tested p xs)
]

pub keep_everything :
    {A : Type 0} (p : A → Bool) (xs : List A) → All (λ x. p x ≡ true) xs → keep p xs ≡ xs
keep_everything p [] h = refl
keep_everything p (x ∷ xs) (h, hs) = rw (h, keep_everything p xs hs) refl

abbrev pub OnSome : {A : Type 0} → (A → Type 0) → Option A → Type 0
OnSome P none = Unit
OnSome P (some x) = P x

pub nth-OnSome :
    {A : Type 0} (P : A → Type 0) (xs : List A) (n : ℕ) → All P xs → OnSome P (get_elem? xs n)
nth-OnSome P [] n h = tt
nth-OnSome P (x ∷ xs) zero (h, hs) = h
nth-OnSome P (x ∷ xs) (suc n) (h, hs) = nth-OnSome P xs n hs
