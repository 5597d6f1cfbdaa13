-- ===== src/Client/Token/Cookies.antt =====
-- The token that the expression finds in cookies of the form "name=value; name=value".
use Prim.Native.Char.{Char, code}
use Prim.Native.String.{[], ◌∷◌}
use text.Mathlib.TextLemmas.{nil-append, cons-append}
use vps_pilot.Base.{
  ℕ, String, ◌<>◌, ◌≡◌, refl, sym, ap, ap₂, ◌∙◌, Bool, true, false, Option, none, some, List, eqb,
  arith, if◌then◌else◌, All, Bool-cases, inl, inr,
}
use vps_pilot.Base.Text.{nonempty, join, Free, Free-of_test, is_space}
use vps_pilot.Base.Scan.{after_prefix, trim_start}
use vps_pilot.Client.Token.{up_to, nonempty_part, token_at, first_of, find_token, get_csrf_token}

abbrev begins_spaced : String → Bool
begins_spaced [] = false
begins_spaced (c ∷ s) = is_space (code c)

-- A cookie as `document.cookie` shows it: no semicolon, no white space in front.
abbrev pub IsCookie : String → Type 0
IsCookie p = Free b';' p × (begins_spaced p ≡ false)

-- The token of the first cookie of that name that has a value.
unfoldable pub first_token : List String → Option String
unfolding token_at
first_token List.[] = none
first_token (List.◌∷◌ p ps) = first_of (token_at p) (first_token ps)

-- The text that is sent for what was found; none where the decoding throws.
abbrev pub decoded : (String → Option String) → Option String → Option String
decoded decode none = some ""
decoded decode (some t) = decode t

up_to-of_Free : (sep : ℕ) (s : String) → Free sep s → up_to sep s ≡ s
unfolding up_to
up_to-of_Free sep [] h = refl
up_to-of_Free sep (c ∷ s) (h, hs) = rw (up_to-of_Free sep s hs) (ground arith)

up_to-append : (x : Char) (s t : String) → Free (code x) s → up_to (code x) (s <> (x ∷ t)) ≡ s
unfolding up_to
up_to-append x [] t h = rw nil-append (ground arith)
up_to-append x (c ∷ s) t (h, hs) = rw (cons-append, up_to, up_to-append x s t hs) (ground arith)

abbrev append_to : String → Option String → Option String
append_to t none = none
append_to t (some r) = some (r <> t)

after_prefix-append :
    (x : Char) (q p t : String)
    → Free (code x) q
    → after_prefix q (p <> (x ∷ t)) ≡ append_to (x ∷ t) (after_prefix q p)
unfolding after_prefix
after_prefix-append x [] p t h = refl
after_prefix-append x (a ∷ q) [] t (h, hs) = rw nil-append (ground arith)
after_prefix-append x (a ∷ q) (c ∷ p) t (h, hs) = elim (Bool-cases (eqb (code c) (code a))) [
  | inl e ↦ rw (cons-append, after_prefix, e) (after_prefix-append x q p t hs)
  | inr n ↦ rw (cons-append, after_prefix, n) refl
]

abbrev IsFree : ℕ → Option String → Type 0
IsFree sep none = Unit
IsFree sep (some r) = Free sep r

after_prefix-IsFree : (sep : ℕ) (q p : String) → Free sep p → IsFree sep (after_prefix q p)
unfolding after_prefix
after_prefix-IsFree sep [] p h = h
after_prefix-IsFree sep (a ∷ q) [] h = tt
after_prefix-IsFree sep (a ∷ q) (c ∷ p) (h, hs) = elim (Bool-cases (eqb (code c) (code a))) [
  | inl e ↦ rw e (after_prefix-IsFree sep q p hs)
  | inr n ↦ rw n tt
]

abbrev semicolon : Char
semicolon = ";"

nonempty_part-append :
    (o : Option String) (t : String)
    → IsFree b';' o
    → nonempty_part (append_to (semicolon ∷ t) o) ≡ nonempty_part o
nonempty_part-append none t h = refl
nonempty_part-append (some r) t h =
    ap (λ u. if nonempty u then some u else none)
      (up_to-append semicolon r t h ∙ sym (up_to-of_Free b';' r h))

-- The text behind a cookie's semicolon does not matter.
token_at-append : (p t : String) → Free b';' p → token_at (p <> (semicolon ∷ t)) ≡ token_at p
unfolding token_at
token_at-append p t h =
    ap nonempty_part
      (after_prefix-append semicolon "_gorilla_csrf=" p t (Free-of_test b';' "_gorilla_csrf=" refl))
    ∙ nonempty_part-append (after_prefix "_gorilla_csrf=" p) t
        (after_prefix-IsFree b';' "_gorilla_csrf=" p h)

-- No match begins inside a cookie.
find_token-append :
    (p t : String)
    → Free b';' p
    → find_token false (p <> (semicolon ∷ t)) ≡ find_token false (semicolon ∷ t)
unfolding find_token
find_token-append [] t h = rw nil-append refl
find_token-append (c ∷ p) t (h, hs) =
    rw (cons-append, find_token, find_token-append p t hs) (ground arith)

find_token-of_Free : (p : String) → Free b';' p → find_token false p ≡ none
unfolding find_token
find_token-of_Free [] h = refl
find_token-of_Free (c ∷ p) (h, hs) = rw (find_token-of_Free p hs) (ground arith)

-- `document.cookie`, of cookies that are there.
unfoldable pub cookie_text : List String → String
unfolding join
cookie_text ps = join "; " ps

token_at-cookies :
    (p : String) (ps : List String)
    → IsCookie p
    → token_at (cookie_text (List.◌∷◌ p ps)) ≡ token_at p
unfolding cookie_text
token_at-cookies p List.[] (h, k) = refl
token_at-cookies p (List.◌∷◌ q ps) (h, k) =
    rw cons-append (token_at-append p (" " <> cookie_text (List.◌∷◌ q ps)) h)

trim_start-unspaced : (s : String) → begins_spaced s ≡ false → trim_start s ≡ s
unfolding trim_start
trim_start-unspaced [] h = refl
trim_start-unspaced (c ∷ s) h = rw h refl

begins_spaced-append :
    (p t : String)
    → begins_spaced p ≡ false
    → begins_spaced t ≡ false
    → begins_spaced (p <> t) ≡ false
begins_spaced-append [] t h k = rw nil-append k
begins_spaced-append (c ∷ p) t h k = rw cons-append h

cookies-unspaced :
    (p : String) (ps : List String)
    → IsCookie p
    → begins_spaced (cookie_text (List.◌∷◌ p ps)) ≡ false
unfolding cookie_text
cookies-unspaced p List.[] (h, k) = k
cookies-unspaced p (List.◌∷◌ q ps) (h, k) =
    rw cons-append
      (begins_spaced-append p (semicolon ∷ (" " <> cookie_text (List.◌∷◌ q ps))) k refl)

-- Behind a semicolon and a space the next cookie begins.
find_token-next :
    (t : String)
    → begins_spaced t ≡ false
    → find_token false (semicolon ∷ (" " <> t)) ≡ first_of (token_at t) (find_token false t)
unfolding find_token trim_start
find_token-next t h =
    rw (cons-append, nil-append)
      (ap (λ u. first_of (token_at u) (find_token false t)) (trim_start-unspaced t h))

find_token-inside :
    (p : String) (ps : List String)
    → All IsCookie (List.◌∷◌ p ps)
    → find_token false (cookie_text (List.◌∷◌ p ps)) ≡ first_token ps
unfolding cookie_text first_token
find_token-inside p List.[] ((h, k), hs) = find_token-of_Free p h
find_token-inside p (List.◌∷◌ q ps) ((h, k), (c, hs)) =
    let next : String = cookie_text (List.◌∷◌ q ps) in
    rw cons-append (
      find_token-append p (" " <> next) h
      ∙ find_token-next next (cookies-unspaced q ps c)
      ∙ ap₂ first_of (token_at-cookies q ps c) (find_token-inside q ps (c, hs)))

at_start : (s : String) → find_token true s ≡ first_of (token_at s) (find_token false s)
unfolding find_token token_at after_prefix
at_start [] = refl
at_start (c ∷ s) = refl

-- In cookies that are joined by a semicolon and a space the token's expression finds the value of
-- the first cookie of its name that has one, if no cookie holds a semicolon or begins with white
-- space.
pub get_csrf_token-cookies :
    (decode : String → Option String) (ps : List String)
    → All IsCookie ps
    → get_csrf_token decode (cookie_text ps) ≡ decoded decode (first_token ps)
unfolding get_csrf_token first_token cookie_text
get_csrf_token-cookies decode List.[] h = refl
get_csrf_token-cookies decode (List.◌∷◌ p ps) (h, hs) = ap (decoded decode) (
    at_start (cookie_text (List.◌∷◌ p ps))
    ∙ ap₂ first_of (token_at-cookies p ps h) (find_token-inside p ps (h, hs)))
