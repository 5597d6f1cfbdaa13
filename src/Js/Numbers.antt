-- ===== src/Js/Numbers.antt =====
-- The number that the decimal digits of `String(n)` stand for.
use Prim.Native.Char.{code}
use Prim.Native.String.{String, [], ◌∷◌}
use text.Mathlib.TextLemmas.{nil-append, cons-append}
use vps_pilot.Base.{
  ℕ, zero, suc, ◌+◌, ◌-◌, ◌*◌, ◌/◌, ◌%◌, ◌<◌, ◌<>◌, ◌≡◌, refl, sym, ap, ◌∙◌, arith, ltb, Bool-cases,
  inl, inr,
}
use vps_pilot.Js.{digit, show_from, show_ℕ}

-- The number that decimal digits stand for, behind those read before.
value : ℕ → String → ℕ
value acc [] = acc
value acc (c ∷ s) = value (acc * 10 + (code c - 48)) s

value-append : (acc : ℕ) (s t : String) → value acc (s <> t) ≡ value (value acc s) t
unfolding value
value-append acc [] t = ap (value acc) (nil-append t)
value-append acc (c ∷ s) t =
    ap (value acc) (cons-append c s t) ∙ value-append (acc * 10 + (code c - 48)) s t

value-digit : (acc d : ℕ) → d < 10 → value acc (digit d) ≡ acc * 10 + d
unfolding value digit
value-digit acc zero h = refl
value-digit acc (suc zero) h = refl
value-digit acc (suc (suc zero)) h = refl
value-digit acc (suc (suc (suc zero))) h = refl
value-digit acc (suc (suc (suc (suc zero)))) h = refl
value-digit acc (suc (suc (suc (suc (suc zero))))) h = refl
value-digit acc (suc (suc (suc (suc (suc (suc zero)))))) h = refl
value-digit acc (suc (suc (suc (suc (suc (suc (suc zero))))))) h = refl
value-digit acc (suc (suc (suc (suc (suc (suc (suc (suc zero)))))))) h = refl
value-digit acc (suc (suc (suc (suc (suc (suc (suc (suc (suc zero))))))))) h = refl
value-digit acc (suc (suc (suc (suc (suc (suc (suc (suc (suc (suc d)))))))))) h =
    absurd (omega arith)

value-show_from : (fuel n : ℕ) → n < fuel → value 0 (show_from fuel n) ≡ n
unfolding show_from
value-show_from zero n h = absurd (omega arith)
value-show_from (suc fuel) n h = elim (Bool-cases (ltb n 10)) [
  | inl t ↦ rw t (value-digit 0 n (ground arith) ∙ omega arith)
  | inr f ↦
      let big : n / 10 < fuel = ground arith in
      rw f (
        value-append 0 (show_from fuel (n / 10)) (digit (n % 10))
        ∙ ap (λ m. value m (digit (n % 10))) (value-show_from fuel (n / 10) big)
        ∙ value-digit (n / 10) (n % 10) (omega arith)
        ∙ omega arith)
]

value-show : (n : ℕ) → value 0 (show_ℕ n) ≡ n
unfolding show_ℕ
value-show n = value-show_from (suc n) n (omega arith)

pub show_inj : (n m : ℕ) → show_ℕ n ≡ show_ℕ m → n ≡ m
show_inj n m h = sym (value-show n) ∙ ap (value 0) h ∙ value-show m

-- Only 0 could be shown as nothing.
pub show-empty : (n : ℕ) → show_ℕ n ≡ [] → n ≡ 0
unfolding value
show-empty n h = sym (value-show n) ∙ ap (value 0) h
