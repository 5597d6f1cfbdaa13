-- ===== src/Base/Sets.antt =====
-- A `Set` of texts: the entries in the order of their insertion.
use Prim.Native.String.{String}
use mathlib.Core.Path.{◌≡◌, refl}
use mathlib.Core.Bool.{Bool, true, false, not, ◌&&◌, ◌||◌}
use mathlib.Core.List.{List, [], ◌∷◌}
use native.Mathlib.Omega.{arith}
use text.Mathlib.Text.{◌==◌}
use text.Mathlib.TextEquality.{eq_iff}
use text.Mathlib.TextPositions.{eq_refl}
use mathlib.Core.Logic.{inl, inr}
use vps_pilot.Base.Test.{if◌then◌else◌, All, all, Bool-cases}

-- `set.has(name)`
abbrev pub has : String → List String → Bool
has name [] = false
has name (n ∷ ns) = n == name || has name ns

-- `set.add(name)`
unfoldable pub add : String → List String → List String
add name [] = name ∷ []
add name (n ∷ ns) = if n == name then n ∷ ns else n ∷ add name ns

-- `set.delete(name)`
unfoldable pub delete : String → List String → List String
delete name [] = []
delete name (n ∷ ns) = let rest = delete name ns in if n == name then rest else n ∷ rest

-- `names.forEach((n) => set.add(n))`, and `new Set([...set, ...names])`.
unfoldable pub add_all : List String → List String → List String
unfolding add
add_all [] set = set
add_all (n ∷ ns) set = add_all ns (add n set)

-- `names.forEach((n) => set.delete(n))`
unfoldable pub delete_all : List String → List String → List String
unfolding delete
delete_all [] set = set
delete_all (n ∷ ns) set = delete_all ns (delete n set)

-- `if (set.has(name)) set.delete(name); else set.add(name);`
unfoldable pub toggle : String → List String → List String
unfolding add delete
toggle name set = if has name set then delete name set else add name set

pub has-add : (a b : String) (set : List String) → has b (add a set) ≡ (a == b || has b set)
unfolding add
has-add a b [] = refl
has-add a b (n ∷ ns) = ground (arith, eq_iff n a, eq_iff a b, eq_iff n b, has-add a b ns)

pub has-delete :
    (a b : String) (set : List String)
    → has b (delete a set) ≡ (if a == b then false else has b set)
unfolding delete
has-delete a b [] = ground arith
has-delete a b (n ∷ ns) = ground (arith, eq_iff n a, eq_iff a b, eq_iff n b, has-delete a b ns)

pub has-add_all :
    (names : List String) (b : String) (set : List String)
    → has b (add_all names set) ≡ (has b names || has b set)
unfolding add_all
has-add_all [] b set = refl
has-add_all (n ∷ ns) b set = ground (arith, has-add_all ns b (add n set), has-add n b set)

pub has-delete_all :
    (names : List String) (b : String) (set : List String)
    → has b (delete_all names set) ≡ (if has b names then false else has b set)
unfolding delete_all
has-delete_all [] b set = refl
has-delete_all (n ∷ ns) b set =
    ground (arith, has-delete_all ns b (delete n set), has-delete n b set)

has-same : (a b : String) (set : List String) → a ≡ b → has a set ≡ has b set
has-same a b set e = cc

has-toggle :
    (a b : String) (set : List String)
    → has b (toggle a set) ≡ (if a == b then not (has b set) else has b set)
unfolding toggle
has-toggle a b set =
    ground (arith, eq_iff a b, has-add a b set, has-delete a b set, has-same a b set)

module _ {ℓ} (P : String → Type ℓ) where
  add-All : (a : String) (set : List String) → P a → All P set → All P (add a set)
  unfolding add
  add-All a [] p h = (p, tt)
  add-All a (n ∷ ns) p (q, h) = elim (Bool-cases (n == a)) [
    | inl t ↦ rw t (q, h)
    | inr f ↦ rw f (q, add-All a ns p h)
  ]

  delete-All : (a : String) (set : List String) → All P set → All P (delete a set)
  unfolding delete
  delete-All a [] h = tt
  delete-All a (n ∷ ns) (q, h) = elim (Bool-cases (n == a)) [
    | inl t ↦ rw t (delete-All a ns h)
    | inr f ↦ rw f (q, delete-All a ns h)
  ]

  pub add_all-All : (names set : List String) → All P names → All P set → All P (add_all names set)
  unfolding add_all
  add_all-All [] set k h = h
  add_all-All (n ∷ ns) set (p, k) h = add_all-All ns (add n set) k (add-All n set p h)

  pub delete_all-All : (names set : List String) → All P set → All P (delete_all names set)
  unfolding delete_all
  delete_all-All [] set h = h
  delete_all-All (n ∷ ns) set h = delete_all-All ns (delete n set) (delete-All n set h)

  pub toggle-All : (a : String) (set : List String) → P a → All P set → All P (toggle a set)
  unfolding toggle
  toggle-All a set p h = elim (Bool-cases (has a set)) [
    | inl t ↦ rw t (delete-All a set h)
    | inr f ↦ rw f (add-All a set p h)
  ]

-- What holds of the members of a set holds of its list.
pub all-members :
    (p : String → Bool) (xs : List String)
    → ((i : String) → has i xs ≡ true → p i ≡ true)
    → all p xs ≡ true
all-members p [] h = refl
all-members p (x ∷ xs) h =
    both (h x (self x (has x xs))) (all-members p xs (λ i k. h i (right (x == i) k)))
  where
    self : (x : String) (b : Bool) → (x == x || b) ≡ true
    self x b = rw (eq_refl x) refl

    right : (a : Bool) {b : Bool} → b ≡ true → (a || b) ≡ true
    right a k = ground arith

    both : {a b : Bool} → a ≡ true → b ≡ true → (a && b) ≡ true
    both h k = ground arith
