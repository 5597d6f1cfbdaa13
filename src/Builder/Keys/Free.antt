-- ===== src/Builder/Keys/Free.antt =====
-- The names that `while (taken(n)) n = base + ++i` tries, and the one that it ends with.
use text.Mathlib.TextLemmas.{append-nil, append_cancel_left}
use Prim.Native.String.{[] as no_text}
use vps_pilot.Base.{
  ℕ, zero, suc, ◌+◌, ◌≤◌, ◌<◌, String, ◌<>◌, ◌≡◌, ◌≢◌, refl, sym, ◌∙◌, Bool, true, false, List, [],
  ◌∷◌, ◌==◌, eq_iff, eqb, if◌then◌else◌, length, arith, Bool-cases, inl, inr,
}
use vps_pilot.Js.{show_ℕ}
use vps_pilot.Js.Numbers.{show_inj, show-empty}
use vps_pilot.Base.Sets.{has}
use vps_pilot.Builder.Keys.{free_from}

-- The name that the loop tests with its counter at i.
abbrev name_at : String → ℕ → String
name_at base i = if eqb i 1 then base else base <> show_ℕ i

abbrev without : String → List String → List String
without n [] = []
without n (k ∷ ks) = let rest = without n ks in if k == n then rest else k ∷ rest

length-without-le : (n : String) (ks : List String) → length (without n ks) ≤ length ks
length-without-le n [] = omega arith
length-without-le n (k ∷ ks) = ground (arith, length-without-le n ks)

length-without :
    (n : String) (ks : List String) → has n ks ≡ true → length (without n ks) < length ks
length-without n [] h = cc
length-without n (k ∷ ks) h = ground (arith, length-without n ks, length-without-le n ks)

has-without :
    (n m : String) (ks : List String) → m ≢ n → has m ks ≡ true → has m (without n ks) ≡ true
has-without n m [] d h = cc
has-without n m (k ∷ ks) d h = ground (arith, eq_iff k n, eq_iff k m, has-without n m ks d)

name_at-plain : (base : String) (i : ℕ) → 1 < i → name_at base i ≡ base <> show_ℕ i
name_at-plain base i h = ground arith

name_at-ne : (base : String) (i j : ℕ) → 1 ≤ i → i < j → name_at base j ≢ name_at base i
name_at-ne base i j one h e = elim (Bool-cases (eqb i 1)) [
  | inl first ↦
      let e' : base <> show_ℕ j ≡ base <> no_text =
        sym (name_at-plain base j (omega arith)) ∙ e ∙ rw first (sym (append-nil base)) in
      let zero_shown = show-empty j (append_cancel_left base (show_ℕ j) no_text e') in
      absurd (omega arith)
  | inr later ↦
      let i' : 1 < i = ground arith in
      let e' = sym (name_at-plain base j (omega arith)) ∙ e ∙ name_at-plain base i i' in
      let same = show_inj j i (append_cancel_left base (show_ℕ j) (show_ℕ i) e') in
      absurd (omega arith)
]

free_from-free :
    (fuel : ℕ) (base : String) (taken : String → Bool) (i : ℕ) (ks : List String)
    → 1 ≤ i
    → length ks < fuel
    → ((j : ℕ) → i ≤ j → taken (name_at base j) ≡ true → has (name_at base j) ks ≡ true)
    → taken (free_from fuel base taken i (name_at base i)) ≡ false
unfolding free_from
free_from-free zero base taken i ks one h all = absurd (omega arith)
free_from-free (suc fuel) base taken i ks one h all = elim (Bool-cases (taken (name_at base i))) [
  | inr free ↦ rw (free, free) refl
  | inl t ↦
      let here = all i (omega arith) t in
      let next = name_at-plain base (i + 1) (omega arith) in
      rw t (
        rw (← next) (
          free_from-free fuel base taken (i + 1) (without (name_at base i) ks) (omega arith)
            (omega (arith, length-without (name_at base i) ks here))
            (λ j (le : i + 1 ≤ j) (tj : taken (name_at base j) ≡ true).
              has-without (name_at base i) (name_at base j) ks
                (name_at-ne base i j one (omega arith)) (all j (omega arith) tj))))
]

-- The name that is found is free, if the keys are all that can be taken.
pub free_from-is_free :
    (base : String) (taken : String → Bool) (ks : List String)
    → ((n : String) → taken n ≡ true → has n ks ≡ true)
    → taken (free_from (suc (length ks)) base taken 1 base) ≡ false
free_from-is_free base taken ks all =
    free_from-free (suc (length ks)) base taken 1 ks (omega arith) (omega arith)
      (λ j (le : 1 ≤ j) (t : taken (name_at base j) ≡ true). all (name_at base j) t)
