-- ===== src/Base/Glue.antt =====
-- `split` of a text that is put together.
use Prim.Native.Char.{Char, code}
use Prim.Native.String.{String, ◌++◌ as ◌<>◌}
use Prim.Native.Nat.{ℕ}
use mathlib.Core.Path.{◌≡◌, refl, ap, ap₂, ◌∙◌, sym}
use mathlib.Core.Logic.{inl, inr}
use mathlib.Core.List.{List, [], ◌∷◌}
use text.Mathlib.TextLemmas.{nil-append, cons-append}
use vps_pilot.Base.Test.{eqb, Bool-cases}
use vps_pilot.Base.Text.{split, split-cons, split-of_Free, onto_head, Free}

-- The parts of two texts, where the last part of the first goes on with the first of the second.
unfoldable pub glue : List String → List String → List String
glue [] ts = ts
glue (p ∷ []) [] = p ∷ []
glue (p ∷ []) (t ∷ ts) = (p <> t) ∷ ts
glue (p ∷ q ∷ ps) ts = p ∷ glue (q ∷ ps) ts

glue-empty : (t : String) (ts : List String) → glue ("" ∷ []) (t ∷ ts) ≡ t ∷ ts
unfolding glue
glue-empty t ts = rw nil-append refl

glue-cons : (p q : String) (ps ts : List String) → glue (p ∷ q ∷ ps) ts ≡ p ∷ glue (q ∷ ps) ts
unfolding glue
glue-cons p q ps ts = refl

glue-onto_head :
    (c : Char) (p : String) (ps : List String) (t : String) (ts : List String)
    → glue (onto_head c (p ∷ ps)) (t ∷ ts) ≡ onto_head c (glue (p ∷ ps) (t ∷ ts))
unfolding glue
glue-onto_head c p [] t ts = ap (λ r. r ∷ ts) (cons-append c p t)
glue-onto_head c p (q ∷ ps) t ts = refl

pub split-glue : (sep : ℕ) (s t : String) → split sep (s <> t) ≡ glue (split sep s) (split sep t)
unfolding split
split-glue sep String.[] t =
    let (q, qs, e) = split-cons sep t in
    ap (split sep) (nil-append t) ∙ e ∙ sym (glue-empty q qs) ∙ ap (glue ("" ∷ [])) (sym e)
split-glue sep (String.◌∷◌ c s) t =
    let (p, ps, d) = split-cons sep s in
    let (q, qs, e) = split-cons sep t in
    let ih = split-glue sep s t ∙ ap₂ glue d e in
    elim (Bool-cases (eqb (code c) sep)) [
      | inl y ↦ rw (cons-append, split, y, d, e, ih) (sym (glue-cons "" p ps (q ∷ qs)))
      | inr n ↦ rw (cons-append, split, n, d, e, ih) (sym (glue-onto_head c p ps q qs))
    ]

-- Behind what is split already there is one part.
pub split-glue-Free :
    (sep : ℕ) (s t : String) → Free sep t → split sep (s <> t) ≡ glue (split sep s) (t ∷ [])
split-glue-Free sep s t h = split-glue sep s t ∙ ap (glue (split sep s)) (split-of_Free sep t h)
