-- ===== src/Builder/Image/Parts.antt =====
-- The parts of an image reference, and the image after a choice from the list.
use Prim.Native.Char.{Char, code}
use Prim.Native.String.{[], ◌∷◌}
use text.Mathlib.TextLemmas.{nil-append, cons-append, append_assoc}
use vps_pilot.Base.{
  ℕ, String, ◌<>◌, ◌≡◌, refl, sym, ap, ◌∙◌, Option, none, some, eqb, arith, Bool-cases, inl, inr,
}
use vps_pilot.Base.Text.{Free, Free-append, same_char}
use vps_pilot.Builder.Image.{
  cut, is_registry, ref_of, parse_image_ref, image_name, name_of, ImageField, select_tag, no_prefix,
}

abbrev CutAt : Char → String → Option (String × String) → Type 0
CutAt sep s none = Unit
CutAt sep s (some (a, b)) = s ≡ a <> ((sep ∷ []) <> b)

cut_step :
    (sep c : Char) (s : String) (o : Option (String × String))
    → CutAt sep s o
    → CutAt sep (c ∷ s) (elim o [ none ↦ none | some (a, b) ↦ some (c ∷ a, b) ])
cut_step sep c s none h = tt
cut_step sep c s (some (a, b)) h = ap (λ t. c ∷ t) h ∙ sym (cons-append c a ((sep ∷ []) <> b))

-- The parts and the separator make the text.
cut-CutAt : (sep : Char) (s : String) → CutAt sep s (cut (code sep) s)
unfolding cut
cut-CutAt sep [] = tt
cut-CutAt sep (c ∷ s) = elim (Bool-cases (eqb (code c) (code sep))) [
  | inl t ↦ rw t (
      ap (λ d. d ∷ s) (same_char c sep t)
      ∙ sym
          (nil-append ((sep ∷ []) <> s) ∙ cons-append sep [] s ∙ ap (λ r. sep ∷ r) (nil-append s)))
  | inr f ↦ rw f (cut_step sep c s (cut (code sep) s) (cut-CutAt sep s))
]

ref_of-parts :
    (s : String) (o : Option (String × String))
    → CutAt "/" s o
    → (ref_of s o).prefix <> (ref_of s o).rest ≡ s
ref_of-parts s none h = nil-append s
ref_of-parts s (some (a, b)) h = elim (Bool-cases (is_registry a)) [
  | inl t ↦ rw t (append_assoc a "/" b ∙ sym h)
  | inr f ↦ rw f (nil-append s)
]

-- The registry's prefix and the rest make the whole image.
image_ref_parts :
    (value : String) → (parse_image_ref value).prefix <> (parse_image_ref value).rest ≡ value
unfolding parse_image_ref
image_ref_parts value = ref_of-parts value (cut b'/' value) (cut-CutAt "/" value)

cut-append :
    (sep : Char) (a b : String)
    → Free (code sep) a
    → cut (code sep) (a <> ((sep ∷ []) <> b)) ≡ some (a, b)
unfolding cut
cut-append sep [] b h = rw (nil-append, cons-append, nil-append) (ground arith)
cut-append sep (c ∷ a) b (h, hs) = rw (cons-append, cut, cut-append sep a b hs) (ground arith)

cut-of_Free : (sep : ℕ) (s : String) → Free sep s → cut sep s ≡ none
unfolding cut
cut-of_Free sep [] h = refl
cut-of_Free sep (c ∷ s) (h, hs) = rw (cut-of_Free sep s hs) (ground arith)

module _ (name old tag : String) (no_slash : Free b'/' name) (no_colon : Free b':' name)
    (no_slash_behind : Free b'/' old) where
  without_registry : parse_image_ref (name <> (":" <> old)) ≡ no_prefix (name <> (":" <> old))
  unfolding parse_image_ref
  without_registry = ap (ref_of (name <> (":" <> old))) (
      cut-of_Free b'/' (name <> (":" <> old)) (
        Free-append b'/' name (":" <> old) no_slash
          (Free-append b'/' ":" old (omega arith) no_slash_behind)))

  name_in_front : image_name (name <> (":" <> old)) ≡ name
  unfolding image_name
  name_in_front = ap (name_of (name <> (":" <> old))) (cut-append ":" name old no_colon)

  -- A tag that is chosen for an image without a registry replaces all that stands behind the first
  -- colon, a digest too: of "nginx@sha256:" with a digest it makes "nginx@sha256:" with a tag.
  tag_replaced :
      (s : ImageField)
      → s.value ≡ name <> (":" <> old)
      → (select_tag (some tag) s).value ≡ name <> (":" <> tag)
  unfolding select_tag
  tag_replaced s h =
      ap (λ r. r.prefix <> (image_name r.rest <> (":" <> tag)))
        (ap parse_image_ref h ∙ without_registry)
      ∙ nil-append (image_name (name <> (":" <> old)) <> (":" <> tag))
      ∙ ap (λ n. n <> (":" <> tag)) name_in_front
