-- ===== src/Base/Dict.antt =====
-- `Record<string, V>`: an association list in insertion order. Assignment to a present key keeps
-- its place. (JavaScript lists integer-like keys first; the model keeps them where they were put.)
use Prim.Native.String.{String}
use mathlib.Core.Path.{◌≡◌, refl}
use mathlib.Core.Bool.{Bool, false, ◌||◌}
use mathlib.Core.Option.{Option, none, some}
use mathlib.Core.List.{List, [], ◌∷◌, ◌++◌, append_assoc}
use native.Mathlib.Omega.{arith}
use text.Mathlib.Text.{◌==◌}
use text.Mathlib.TextEquality.{eq_iff}
use vps_pilot.Base.Test.{if◌then◌else◌}

abbrev pub Dict {ℓ} : Type ℓ → Type ℓ
Dict V = List (String × V)

module _ {ℓ} {V : Type ℓ} where
  -- `m[k]`
  unfoldable pub lookup : String → Dict V → Option V
  lookup k [] = none
  lookup k ((at, v) ∷ d) = if at == k then some v else lookup k d

  -- `d[k] = v`
  unfoldable pub insert : String → V → Dict V → Dict V
  insert k v [] = (k, v) ∷ []
  insert k v ((at, w) ∷ d) = if at == k then (at, v) ∷ d else (at, w) ∷ insert k v d

  -- `delete d[k]`, or `const { [k]: _, ...rest } = d`
  unfoldable pub erase : String → Dict V → Dict V
  erase k [] = []
  erase k ((j, w) ∷ d) = let rest = erase k d in if j == k then rest else (j, w) ∷ rest

  -- `k in d`
  unfoldable pub has_key : String → Dict V → Bool
  has_key k [] = false
  has_key k ((j, w) ∷ d) = j == k || has_key k d

  abbrev pub keys : Dict V → List String
  keys [] = []
  keys ((k, v) ∷ d) = k ∷ keys d

  -- What every object satisfies: a key is listed once.
  abbrev pub NodupKeys : Dict V → Type 0
  NodupKeys [] = Unit
  NodupKeys ((k, v) ∷ d) = (has_key k d ≡ false) × NodupKeys d

  pub lookup-insert :
      (key other : String) (v : V) (d : Dict V)
      → lookup other (insert key v d) ≡ (if key == other then some v else lookup other d)
  unfolding lookup insert
  lookup-insert key other v [] = refl
  lookup-insert key other v ((at, w) ∷ d) =
      ground (arith, eq_iff at key, eq_iff at other, eq_iff key other, lookup-insert key other v d)

  pub has_key-insert :
      (k j : String) (v : V) (d : Dict V) → has_key j (insert k v d) ≡ (k == j || has_key j d)
  unfolding has_key insert
  has_key-insert k j v [] = refl
  has_key-insert k j v ((i, w) ∷ d) =
      ground (arith, eq_iff k j, eq_iff i k, eq_iff i j, has_key-insert k j v d)

  pub lookup-erase :
      (k j : String) (d : Dict V) → lookup j (erase k d) ≡ (if k == j then none else lookup j d)
  unfolding lookup erase
  lookup-erase k j [] = ground arith
  lookup-erase k j ((i, w) ∷ d) =
      ground (arith, eq_iff k j, eq_iff i k, eq_iff i j, lookup-erase k j d)

  pub insert-NodupKeys : (k : String) (v : V) (d : Dict V) → NodupKeys d → NodupKeys (insert k v d)
  unfolding insert has_key
  insert-NodupKeys k v [] h = (refl, tt)
  insert-NodupKeys k v ((j, w) ∷ d) (h, u) =
      ground (arith, eq_iff k j, eq_iff j k, has_key-insert k j v d, insert-NodupKeys k v d u)

  -- A fresh key goes to the end.
  insert-fresh :
      (k : String) (v : V) (d : Dict V) → has_key k d ≡ false → insert k v d ≡ d ++ (k, v) ∷ []
  unfolding insert has_key
  insert-fresh k v [] h = refl
  insert-fresh k v ((j, w) ∷ d) h = ground (arith, insert-fresh k v d)

  pub has_key-append :
      (k : String) (d n : Dict V) → has_key k (d ++ n) ≡ (has_key k d || has_key k n)
  unfolding has_key
  has_key-append k [] n = refl
  has_key-append k ((j, w) ∷ d) n = ground (arith, has_key-append k d n)

  pub has_key-middle :
      (d : Dict V) (k : String) (v : V) (n : Dict V)
      → NodupKeys (d ++ (k, v) ∷ n)
      → has_key k d ≡ false
  unfolding has_key
  has_key-middle [] k v n h = refl
  has_key-middle ((j, w) ∷ d) k v n (h, u) =
      ground
        (arith, eq_iff j k, eq_iff k j, has_key-append j d ((k, v) ∷ n), has_key-middle d k v n u)

  -- One more key in front of those to come.
  pub insert-middle :
      (d : Dict V) (k : String) (v : V) (n : Dict V)
      → NodupKeys (d ++ (k, v) ∷ n)
      → insert k v d ++ n ≡ d ++ (k, v) ∷ n
  insert-middle d k v n h =
      rw (insert-fresh k v d (has_key-middle d k v n h)) (append_assoc d ((k, v) ∷ []) n)

  pub lookup-absent : (k : String) (d : Dict V) → has_key k d ≡ false → lookup k d ≡ none
  unfolding has_key lookup
  lookup-absent k [] h = refl
  lookup-absent k ((j, v) ∷ d) h = ground (arith, lookup-absent k d)
