-- ===== src/Base/Scan.antt =====
-- `startsWith`, `includes` and `trim` of texts, and `slice(-n)` of arrays.
use Prim.Native.Char.{code}
use Prim.Native.String.{String, [], ◌∷◌}
use Prim.Native.Nat.{ℕ, zero, suc, ◌-◌}
use mathlib.Core.Bool.{Bool, true, false, not, ◌&&◌, ◌||◌}
use mathlib.Core.Option.{Option, none, some}
use mathlib.Core.List.{List}
use vps_pilot.Base.Test.{if◌then◌else◌, eqb, length}
use vps_pilot.Base.Text.{is_space, nonempty}

-- What is behind the prefix p, where the text starts with it.
unfoldable pub after_prefix : String → String → Option String
after_prefix [] s = some s
after_prefix (a ∷ p) [] = none
after_prefix (a ∷ p) (c ∷ s) = if eqb (code c) (code a) then after_prefix p s else none

abbrev pub is_some {ℓ} : {A : Type ℓ} → Option A → Bool
is_some none = false
is_some (some a) = true

-- `s.startsWith(p)`
unfoldable pub starts_with : String → String → Bool
unfolding after_prefix
starts_with p s = is_some (after_prefix p s)

-- `s.includes(p)`
unfoldable pub contains : String → String → Bool
unfolding starts_with
contains p [] = starts_with p []
contains p (c ∷ s) = starts_with p (c ∷ s) || contains p s

-- `s.trimStart()`, which is also what `\s*` skips.
unfoldable pub trim_start : String → String
trim_start [] = []
trim_start (c ∷ s) = let rest = trim_start s in if is_space (code c) then rest else c ∷ s

-- `s.trimEnd()`
unfoldable trim_end : String → String
trim_end [] = []
trim_end (c ∷ s) =
    let rest = trim_end s in if is_space (code c) && not (nonempty rest) then [] else c ∷ rest

-- `s.trim()`
unfoldable pub trim : String → String
unfolding trim_start trim_end
trim s = trim_end (trim_start s)

-- `xs.slice(n)` from the front, for n at most the length.
unfoldable pub drop {ℓ} : {A : Type ℓ} → ℕ → List A → List A
drop zero xs = xs
drop (suc n) List.[] = List.[]
drop (suc n) (List.◌∷◌ x xs) = drop n xs

-- `xs.slice(-n)`, for n above 0.
unfoldable pub take_last {ℓ} : {A : Type ℓ} → ℕ → List A → List A
unfolding drop
take_last n xs = drop (length xs - n) xs
