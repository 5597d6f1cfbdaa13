-- ===== src/Base/Lists.antt =====
-- Edits of one element of an array: `xs.map((x, i) => i === n ? f(x) : x)` and
-- `xs.filter((_, i) => i !== n)`, and the element that a position has.
use Prim.Native.Nat.{ℕ, zero, suc}
use mathlib.Core.Path.{◌≡◌, refl}
use mathlib.Core.Option.{Option, none, some}
use mathlib.Core.List.{List, [], ◌∷◌}
use native.Mathlib.Omega.{arith}
use vps_pilot.Base.Test.{if◌then◌else◌, eqb, ltb, All}

module _ {ℓ} {A : Type ℓ} where
  unfoldable pub edit_at : ℕ → (A → A) → List A → List A
  edit_at n f [] = []
  edit_at zero f (x ∷ xs) = f x ∷ xs
  edit_at (suc n) f (x ∷ xs) = x ∷ edit_at n f xs

  unfoldable pub remove_at : ℕ → List A → List A
  remove_at n [] = []
  remove_at zero (x ∷ xs) = xs
  remove_at (suc n) (x ∷ xs) = x ∷ remove_at n xs

  -- `xs[n]`
  abbrev pub get_elem? : List A → ℕ → Option A
  get_elem? [] n = none
  get_elem? (x ∷ xs) zero = some x
  get_elem? (x ∷ xs) (suc n) = get_elem? xs n

  abbrev pub on_some : (A → A) → Option A → Option A
  on_some f none = none
  on_some f (some x) = some (f x)

  pub get_elem?-edit_at :
      (n i : ℕ) (f : A → A) (xs : List A)
      → get_elem? (edit_at n f xs) i
        ≡ (if eqb i n then on_some f (get_elem? xs i) else get_elem? xs i)
  unfolding edit_at
  get_elem?-edit_at n i f [] = ground arith
  get_elem?-edit_at zero zero f (x ∷ xs) = refl
  get_elem?-edit_at zero (suc i) f (x ∷ xs) = ground arith
  get_elem?-edit_at (suc n) zero f (x ∷ xs) = ground arith
  get_elem?-edit_at (suc n) (suc i) f (x ∷ xs) = ground (arith, get_elem?-edit_at n i f xs)

  get_elem?-remove_at :
      (n i : ℕ) (xs : List A)
      → get_elem? (remove_at n xs) i ≡ (if ltb i n then get_elem? xs i else get_elem? xs (suc i))
  unfolding remove_at
  get_elem?-remove_at n i [] = ground arith
  get_elem?-remove_at zero i (x ∷ xs) = ground arith
  get_elem?-remove_at (suc n) zero (x ∷ xs) = ground arith
  get_elem?-remove_at (suc n) (suc i) (x ∷ xs) = ground (arith, get_elem?-remove_at n i xs)

module _ {ℓ κ} {A : Type ℓ} (P : A → Type κ) where
  pub edit_at-All :
      (n : ℕ) (f : A → A) (xs : List A)
      → ((x : A) → P x → P (f x))
      → All P xs
      → All P (edit_at n f xs)
  unfolding edit_at
  edit_at-All n f [] step h = tt
  edit_at-All zero f (x ∷ xs) step (h, hs) = (step x h, hs)
  edit_at-All (suc n) f (x ∷ xs) step (h, hs) = (h, edit_at-All n f xs step hs)

  pub remove_at-All : (n : ℕ) (xs : List A) → All P xs → All P (remove_at n xs)
  unfolding remove_at
  remove_at-All n [] h = tt
  remove_at-All zero (x ∷ xs) (h, hs) = hs
  remove_at-All (suc n) (x ∷ xs) (h, hs) = (h, remove_at-All n xs hs)
