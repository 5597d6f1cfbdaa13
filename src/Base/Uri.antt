-- ===== src/Base/Uri.antt =====
-- `encodeURIComponent`, and the `toString` of `URLSearchParams`. A text is made of Unicode scalar
-- values, so `encodeURIComponent` does not throw.
use Prim.Native.Char.{Char, code}
use Prim.Native.String.{String, ◌++◌ as ◌<>◌}
use Prim.Native.Nat.{ℕ, zero, suc, ◌+◌, ◌/◌, ◌%◌}
use mathlib.Core.Path.{◌≡◌, refl}
use mathlib.Core.Logic.{◌≢◌, inl, inr}
use mathlib.Core.Bool.{Bool, true, false, ◌&&◌, ◌||◌}
use mathlib.Core.List.{List, [], ◌∷◌}
use vps_pilot.Base.Test.{if◌then◌else◌, eqb, ltb, leb, or_else, All, Bool-cases}
use vps_pilot.Base.Text.{Free, Free-append, join}
use vps_pilot.Base.Lists.{get_elem?}
use vps_pilot.Base.Dict.{Dict}

-- The bytes of a character in UTF-8.
unfoldable utf8 : ℕ → List ℕ
utf8 n =
    if ltb n 0x80
    then n ∷ []
    else if ltb n 0x800
    then (0xc0 + n / 64) ∷ (0x80 + n % 64) ∷ []
    else if ltb n 0x10000
    then (0xe0 + n / 4096) ∷ (0x80 + n / 64 % 64) ∷ (0x80 + n % 64) ∷ []
    else (0xf0 + n / 262144) ∷ (0x80 + n / 4096 % 64) ∷ (0x80 + n / 64 % 64) ∷ (0x80 + n % 64) ∷ []

abbrev hexadecimal : List String
hexadecimal =
    "0" ∷ "1" ∷ "2" ∷ "3" ∷ "4" ∷ "5" ∷ "6" ∷ "7" ∷ "8" ∷ "9" ∷ "A" ∷ "B" ∷ "C" ∷ "D" ∷ "E" ∷ "F"
    ∷ []

unfoldable hex : ℕ → String
hex n = or_else (get_elem? hexadecimal n) "0"

abbrev percent : ℕ → String
percent b = "%" <> (hex (b / 16) <> hex (b % 16))

unfoldable percents : List ℕ → String
unfolding hex
percents [] = ""
percents (b ∷ bs) = percent b <> percents bs

abbrev is_alphanumeric : ℕ → Bool
is_alphanumeric c = (leb 48 c && leb c 57) || (leb 65 c && leb c 90) || (leb 97 c && leb c 122)

-- The characters that `encodeURIComponent` keeps: letters, digits and - _ . ! ~ * ' ( ).
unfoldable pub is_kept : ℕ → Bool
is_kept c =
    is_alphanumeric c
    || eqb c 45
    || eqb c 95
    || eqb c 46
    || eqb c 33
    || eqb c 126
    || eqb c 42
    || eqb c 39
    || eqb c 40
    || eqb c 41

unfoldable escaped : Char → String
unfolding percents utf8 hex
escaped c = percents (utf8 (code c))

-- `encodeURIComponent(s)`
unfoldable pub encode : String → String
unfolding is_kept escaped
encode String.[] = String.[]
encode (String.◌∷◌ c s) =
    let rest = encode s in if is_kept (code c) then String.◌∷◌ c rest else escaped c <> rest

-- One name or value of a query that `URLSearchParams` prints: a space is "+", and letters, digits
-- and - _ . * are kept.
unfoldable form_encode : String → String
unfolding escaped
form_encode String.[] = String.[]
form_encode (String.◌∷◌ c s) =
    let rest = form_encode s in
    if eqb (code c) 32
    then "+" <> rest
    else if is_alphanumeric (code c)
        || eqb (code c) 45
        || eqb (code c) 95
        || eqb (code c) 46
        || eqb (code c) 42
    then String.◌∷◌ c rest
    else escaped c <> rest

unfoldable pairs : Dict String → List String
unfolding form_encode
pairs [] = []
pairs ((k, v) ∷ d) = (form_encode k <> ("=" <> form_encode v)) ∷ pairs d

-- `params.toString()`
unfoldable pub query_text : Dict String → String
unfolding pairs join
query_text d = join "&" (pairs d)

module _ (sep : ℕ) (h : is_kept sep ≡ false) where
  -- What is kept is another character than one that is not.
  kept-apart : (c : ℕ) → is_kept c ≡ true → c ≢ sep
  kept-apart c k e = cc

  hexadecimal-Free : All (Free sep) hexadecimal
  unfolding is_kept
  hexadecimal-Free = (
    (kept-apart 48 refl, tt),
    (
      (kept-apart 49 refl, tt),
      (
        (kept-apart 50 refl, tt),
        (
          (kept-apart 51 refl, tt),
          (
            (kept-apart 52 refl, tt),
            (
              (kept-apart 53 refl, tt),
              (
                (kept-apart 54 refl, tt),
                (
                  (kept-apart 55 refl, tt),
                  (
                    (kept-apart 56 refl, tt),
                    (
                      (kept-apart 57 refl, tt),
                      (
                        (kept-apart 65 refl, tt),
                        (
                          (kept-apart 66 refl, tt),
                          (
                            (kept-apart 67 refl, tt),
                            (
                              (kept-apart 68 refl, tt),
                              ((kept-apart 69 refl, tt), ((kept-apart 70 refl, tt), tt)),
                            ),
                          ),
                        ),
                      ),
                    ),
                  ),
                ),
              ),
            ),
          ),
        ),
      ),
    ),
  )

  nth-Free :
      (ts : List String) (d : String) (n : ℕ)
      → All (Free sep) ts
      → Free sep d
      → Free sep (or_else (get_elem? ts n) d)
  nth-Free [] d n hs k = k
  nth-Free (t ∷ ts) d zero (i, hs) k = i
  nth-Free (t ∷ ts) d (suc n) (i, hs) k = nth-Free ts d n hs k

  hex-Free : (n : ℕ) → Free sep (hex n)
  unfolding hex is_kept
  hex-Free n = nth-Free hexadecimal "0" n hexadecimal-Free (kept-apart 48 refl, tt)

  module _ (not_percent : 37 ≢ sep) where
    percents-Free : (bs : List ℕ) → Free sep (percents bs)
    unfolding percents
    percents-Free [] = tt
    percents-Free (b ∷ bs) =
        Free-append sep (percent b) (percents bs)
          (Free-append sep "%" (hex (b / 16) <> hex (b % 16)) (not_percent, tt)
            (Free-append sep (hex (b / 16)) (hex (b % 16)) (hex-Free (b / 16)) (hex-Free (b % 16))))
          (percents-Free bs)

    -- An encoded text is free of every character that is neither kept nor "%".
    pub encode-Free : (s : String) → Free sep (encode s)
    unfolding encode escaped
    encode-Free String.[] = tt
    encode-Free (String.◌∷◌ c s) = elim (Bool-cases (is_kept (code c))) [
      | inl t ↦ rw t (kept-apart (code c) t, encode-Free s)
      | inr f ↦ rw f (
          Free-append sep (percents (utf8 (code c))) (encode s) (percents-Free (utf8 (code c)))
            (encode-Free s))
    ]
