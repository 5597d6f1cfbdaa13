-- ===== src/Base/Text.antt =====
-- `String.split` on one character, `Array.join`, and the laws that relate them.
use Prim.Native.Char.{Char, code}
use Prim.Native.String.{String, [], ◌∷◌, ◌++◌ as ◌<>◌}
use mathlib.Core.Path.{◌≡◌, refl, ap, sym, ◌∙◌, subst}
use mathlib.Core.Bool.{Bool, true, false, ◌&&◌, ◌||◌}
use mathlib.Core.Logic.{◌≢◌, inl, inr}
use mathlib.Core.List.{List, [], ◌∷◌}
use native.Mathlib.Omega.{arith}
use text.Mathlib.Text.{◌==◌}
use text.Mathlib.TextEquality.{Char-path, eq_iff}
use text.Mathlib.TextLemmas.{nil-append, cons-append}
use Prim.Native.Nat.{ℕ}
use vps_pilot.Base.Test.{if◌then◌else◌, eqb, leb, All, Bool-cases}

-- `!!s`
abbrev pub nonempty : String → Bool
nonempty [] = false
nonempty (c ∷ s) = true

-- Puts a character in front of the first part.
abbrev pub onto_head : Char → List String → List String
onto_head c [] = (c ∷ []) ∷ []
onto_head c (p ∷ ps) = (c ∷ p) ∷ ps

-- `s.split(sep)`
unfoldable pub split : ℕ → String → List String
split sep [] = "" ∷ []
split sep (c ∷ s) =
    let rest = split sep s in if eqb (code c) sep then "" ∷ rest else onto_head c rest

-- `parts.join(sep)`
unfoldable pub join : String → List String → String
join sep [] = ""
join sep (p ∷ []) = p
join sep (p ∷ q ∷ ps) = p <> (sep <> join sep (q ∷ ps))

-- The text does not hold the character.
abbrev pub Free : ℕ → String → Type 0
Free sep [] = Unit
Free sep (c ∷ s) = (code c ≢ sep) × Free sep s

onto_head-Free :
    (sep : ℕ) (c : Char) (ps : List String)
    → code c ≢ sep
    → All (Free sep) ps
    → All (Free sep) (onto_head c ps)
onto_head-Free sep c [] h k = ((h, tt), tt)
onto_head-Free sep c (p ∷ ps) h (k, ks) = ((h, k), ks)

pub split-Free : (sep : ℕ) (s : String) → All (Free sep) (split sep s)
unfolding split
split-Free sep [] = (tt, tt)
split-Free sep (c ∷ s) = ground (arith, split-Free sep s, onto_head-Free sep c (split sep s))

-- A text that is free of the character is one part.
pub split-of_Free : (sep : ℕ) (s : String) → Free sep s → split sep s ≡ s ∷ []
unfolding split
split-of_Free sep [] h = refl
split-of_Free sep (c ∷ s) (h, k) = rw (split-of_Free sep s k) (ground arith)

-- The part in front of the first separator is the first part.
pub split-append :
    (sep : Char) (s t : String)
    → Free (code sep) s
    → split (code sep) (s <> (sep ∷ t)) ≡ s ∷ split (code sep) t
unfolding split
split-append sep [] t h = rw nil-append (ground arith)
split-append sep (c ∷ s) t (h, k) = rw (cons-append, split, split-append sep s t k) (ground arith)

pub split-append_sep :
    (sep : Char) (s t : String)
    → Free (code sep) s
    → split (code sep) (s <> ((sep ∷ []) <> t)) ≡ s ∷ split (code sep) t
split-append_sep sep s t h = rw (cons-append, nil-append) (split-append sep s t h)

pub Free-append : (sep : ℕ) (s t : String) → Free sep s → Free sep t → Free sep (s <> t)
Free-append sep [] t h k = rw nil-append k
Free-append sep (c ∷ s) t (h, hs) k = rw cons-append (h, Free-append sep s t hs k)

pub eq_empty : (s : String) → nonempty s ≡ false → s ≡ ""
eq_empty [] h = refl
eq_empty (c ∷ s) h = cc

onto_head-keeps-Free :
    (a : ℕ) (c : Char) (ps : List String)
    → code c ≢ a
    → All (Free a) ps
    → All (Free a) (onto_head c ps)
onto_head-keeps-Free a c [] h k = ((h, tt), tt)
onto_head-keeps-Free a c (p ∷ ps) h (k, ks) = ((h, k), ks)

-- Splitting keeps the parts free of what the text is free of.
pub split-keeps-Free : (a sep : ℕ) (s : String) → Free a s → All (Free a) (split sep s)
unfolding split
split-keeps-Free a sep [] h = (tt, tt)
split-keeps-Free a sep (c ∷ s) (h, k) =
    ground (arith, split-keeps-Free a sep s k, onto_head-keeps-Free a c (split sep s) h)

-- `s.startsWith(c)`, for one character.
unfoldable pub begins_with : ℕ → String → Bool
begins_with a [] = false
begins_with a (c ∷ s) = eqb (code c) a

-- What the test of two texts says.
pub same_text : (s t : String) → (s == t) ≡ true → s ≡ t
same_text s t h = ground (arith, eq_iff s t)

pub apart : (s t : String) → (s == t) ≡ false → s ≢ t
apart s t h = ground (arith, eq_iff s t)

-- The white space that `trim` removes.
abbrev pub is_space : ℕ → Bool
is_space c =
    (leb 9 c && leb c 13)
    || eqb c 32
    || eqb c 160
    || eqb c 0x1680
    || (leb 0x2000 c && leb c 0x200a)
    || eqb c 0x2028
    || eqb c 0x2029
    || eqb c 0x202f
    || eqb c 0x205f
    || eqb c 0x3000
    || eqb c 0xfeff

-- `!s.trim()`
unfoldable pub is_blank : String → Bool
is_blank [] = true
is_blank (c ∷ s) = is_space (code c) && is_blank s

join-onto_head :
    (sep : String) (c : Char) (p : String) (ps : List String)
    → join sep (onto_head c (p ∷ ps)) ≡ c ∷ join sep (p ∷ ps)
unfolding join
join-onto_head sep c p [] = refl
join-onto_head sep c p (q ∷ ps) = cons-append c p (sep <> join sep (q ∷ ps))

pub split-cons : (sep : ℕ) (s : String) → (p : String) × (ps : List String) × (split sep s ≡ p ∷ ps)
unfolding split
split-cons sep [] = ("", [], refl)
split-cons sep (c ∷ s) = elim (Bool-cases (eqb (code c) sep)) [
  | inl t ↦ ("", split sep s, rw t refl)
  | inr f ↦ let (p, ps, shape) = split-cons sep s in (c ∷ p, ps, rw (f, shape) refl)
]

join-nil : (sep : Char) → join (sep ∷ []) ("" ∷ []) ≡ ""
unfolding join
join-nil sep = refl

join-empty :
    (sep : Char) (p : String) (ps : List String)
    → join (sep ∷ []) ("" ∷ p ∷ ps) ≡ sep ∷ join (sep ∷ []) (p ∷ ps)
unfolding join
join-empty sep p ps =
    nil-append ((sep ∷ []) <> join (sep ∷ []) (p ∷ ps))
    ∙ cons-append sep [] (join (sep ∷ []) (p ∷ ps))
    ∙ ap (λ r. sep ∷ r) (nil-append (join (sep ∷ []) (p ∷ ps)))

pub same_char : (c d : Char) → eqb (code c) (code d) ≡ true → c ≡ d
same_char c d h = Char-path c d (ground arith)

-- Joining the parts gives the text back.
pub join-split : (sep : Char) (s : String) → join (sep ∷ []) (split (code sep) s) ≡ s
unfolding split
join-split sep [] = join-nil sep
join-split sep (c ∷ s) =
    let (p, ps, shape) = split-cons (code sep) s in
    let ih : join (sep ∷ []) (p ∷ ps) ≡ s =
      subst (λ t. join (sep ∷ []) t ≡ s) shape (join-split sep s) in
    elim (Bool-cases (eqb (code c) (code sep))) [
      | inl t ↦
          rw (t, shape)
            (join-empty sep p ps ∙ ap (λ r. sep ∷ r) ih ∙ ap (λ d. d ∷ s) (sym (same_char c sep t)))
      | inr f ↦ rw (f, shape) (join-onto_head (sep ∷ []) c p ps ∙ ap (λ r. c ∷ r) ih)
    ]

-- Whether a text has the character, to decide `Free` of a text that is written out.
abbrev pub has_char : ℕ → String → Bool
has_char sep [] = false
has_char sep (c ∷ s) = eqb (code c) sep || has_char sep s

pub Free-of_test : (sep : ℕ) (s : String) → has_char sep s ≡ false → Free sep s
Free-of_test sep [] h = tt
Free-of_test sep (c ∷ s) h = ground (arith, Free-of_test sep s)
