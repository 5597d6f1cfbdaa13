-- ===== src/Builder/Image/Laws.antt =====
-- The image field: the parts of a reference, and the index of the selected tag.
use mathlib.Core.Path.{subst}
use vps_pilot.Base.{
  ℕ, zero, suc, ◌+◌, ◌-◌, ◌<◌, String, ◌<>◌, ◌≡◌, refl, sym, ap, ap₂, ◌∙◌, Bool, true, false, not,
  ◌&&◌, Option, none, some, List, ◌==◌, ltb, if◌then◌else◌, length, is_nil, arith, Bool-cases, inl,
  inr,
}
use vps_pilot.Builder.Image.{
  includes, parse_image_ref, ImageField, tag_at, next_index, previous_index, select_tag,
  rest_change, Key, arrow_down, arrow_up, enter, escape, backspace, other, backspace_key, list_key,
  key_down, Event, typed, key, clicked, clicked_outside, tags_found, search_failed, handle, run,
  fresh_field, enter_key,
}

-- While the list is open, the selected index is one of its tags'.
abbrev InRange : Option ℕ → ℕ → Type 0
InRange none n = Unit
InRange (some i) n = i < n

abbrev IsInRange : ImageField → Type 0
IsInRange s = s.tags_open ≡ true → InRange s.selected_idx (length s.tags)

next-InRange : (n : ℕ) (o : Option ℕ) → 0 < n → InRange (next_index n o) n
next-InRange n none h = elim (Bool-cases (ltb 0 (n - 1))) [
  | inl t ↦ rw t h
  | inr f ↦ rw f (omega arith)
]
next-InRange n (some i) h = elim (Bool-cases (ltb (i + 1) (n - 1))) [
  | inl t ↦ rw t (ground arith)
  | inr f ↦ rw f (omega arith)
]

previous-InRange : (n : ℕ) (o : Option ℕ) → InRange o n → InRange (previous_index o) n
previous-InRange n none h = tt
previous-InRange n (some zero) h = tt
previous-InRange n (some (suc i)) h = omega arith

select-IsInRange : (t : Option String) (s : ImageField) → IsInRange (select_tag t s)
unfolding select_tag
select-IsInRange t s h = cc

if-IsInRange :
    (b : Bool) (s t : ImageField) → IsInRange s → IsInRange t → IsInRange (if b then s else t)
if-IsInRange true s t v w = v
if-IsInRange false s t v w = w

backspace-IsInRange : (k : Key) (s : ImageField) → IsInRange s → IsInRange (backspace_key k s)
unfolding backspace_key
backspace-IsInRange backspace s v =
    if-IsInRange ((parse_image_ref s.value).rest == "") (record s { value = "" }) s v v
backspace-IsInRange arrow_down s v = v
backspace-IsInRange arrow_up s v = v
backspace-IsInRange enter s v = v
backspace-IsInRange escape s v = v
backspace-IsInRange other s v = v

enter-IsInRange : (o : Option ℕ) (s : ImageField) → IsInRange s → IsInRange (enter_key o s)
enter-IsInRange none s v = v
enter-IsInRange (some i) s v = select-IsInRange (tag_at s.tags i) s

length-pos : (ts : List String) → is_nil ts ≡ false → 0 < length ts
length-pos List.[] h = cc
length-pos (List.◌∷◌ t ts) h = omega arith

list-IsInRange :
    (k : Key) (s : ImageField) → is_nil s.tags ≡ false → IsInRange s → IsInRange (list_key k s)
unfolding list_key
list-IsInRange arrow_down s n v =
    λ o. next-InRange (length s.tags) s.selected_idx (length-pos s.tags n)
list-IsInRange arrow_up s n v = λ o. previous-InRange (length s.tags) s.selected_idx (v o)
list-IsInRange enter s n v = enter-IsInRange s.selected_idx s v
list-IsInRange escape s n v = λ o. tt
list-IsInRange backspace s n v = backspace-IsInRange backspace s v
list-IsInRange other s n v = v

and_not : (a b : Bool) → b ≡ true → (a && not b) ≡ false
and_not true b h = rw h refl
and_not false b h = refl

key-IsInRange : (k : Key) (s : ImageField) → IsInRange s → IsInRange (key_down k s)
unfolding key_down
key-IsInRange k s v = elim (Bool-cases (is_nil s.tags)) [
  | inl empty ↦
      subst (λ b. IsInRange (if b then list_key k s else backspace_key k s))
        (sym (and_not s.tags_open (is_nil s.tags) empty)) (backspace-IsInRange k s v)
  | inr filled ↦
      if-IsInRange (s.tags_open && not (is_nil s.tags)) (list_key k s) (backspace_key k s)
        (list-IsInRange k s filled v) (backspace-IsInRange k s v)
]

rest-IsInRange : (r : String) (s : ImageField) → IsInRange s → IsInRange (rest_change r s)
unfolding rest_change
rest-IsInRange r s v =
    let text = (parse_image_ref s.value).prefix <> r in
    if-IsInRange (includes b':' r) (record s { value = text })
      (record s { value = text; tags = List.[]; tags_open = false }) v (λ o. cc)

handle-IsInRange : (e : Event) (s : ImageField) → IsInRange s → IsInRange (handle e s)
unfolding handle
handle-IsInRange (typed r) s v = rest-IsInRange r s v
handle-IsInRange (key k) s v = key-IsInRange k s v
handle-IsInRange (clicked t) s v = select-IsInRange (some t) s
handle-IsInRange clicked_outside s v = λ o. cc
handle-IsInRange (tags_found ts) s v = λ o. tt
handle-IsInRange search_failed s v = λ o. cc

run-IsInRange : (es : List Event) (s : ImageField) → IsInRange s → IsInRange (run es s)
unfolding run
run-IsInRange List.[] s v = v
run-IsInRange (List.◌∷◌ e es) s v = run-IsInRange es (handle e s) (handle-IsInRange e s v)

tag_at-InRange : (ts : List String) (i : ℕ) → i < length ts → (t : String) × (tag_at ts i ≡ some t)
tag_at-InRange List.[] i h = absurd (omega arith)
tag_at-InRange (List.◌∷◌ t ts) zero h = (t, refl)
tag_at-InRange (List.◌∷◌ t ts) (suc i) h = tag_at-InRange ts i (omega arith)

nonempty_at : (ts : List String) (i : ℕ) (t : String) → tag_at ts i ≡ some t → is_nil ts ≡ false
nonempty_at List.[] i t h = cc
nonempty_at (List.◌∷◌ u ts) i t h = refl

key_down-open :
    (k : Key) (s : ImageField)
    → s.tags_open ≡ true
    → is_nil s.tags ≡ false
    → key_down k s ≡ list_key k s
unfolding key_down
key_down-open k s o n = ap₂ (λ a b. if a && not b then list_key k s else backspace_key k s) o n

enter_selects :
    (s : ImageField) (i : ℕ)
    → IsInRange s
    → s.tags_open ≡ true
    → s.selected_idx ≡ some i
    → (t : String) × (tag_at s.tags i ≡ some t) × (key_down enter s ≡ select_tag (some t) s)
unfolding list_key
enter_selects s i v o e =
    let (t, found) = tag_at-InRange s.tags i (subst (λ c. InRange c (length s.tags)) e (v o)) in
    (
      t,
      found,
      key_down-open enter s o (nonempty_at s.tags i t found)
          ∙ ap (λ c. enter_key c s) e
          ∙ ap (λ c. select_tag c s) found,
    )

-- After any events, while the list of tags is open and an index is selected, it is that of a tag
-- of the list, which Enter chooses.
pub enter_selects_tag :
    (value : String) (es : List Event) (i : ℕ)
    → (run es (fresh_field value)).tags_open ≡ true
    → (run es (fresh_field value)).selected_idx ≡ some i
    → (t : String) × (tag_at (run es (fresh_field value)).tags i ≡ some t)
      × (key_down enter (run es (fresh_field value))
          ≡ select_tag (some t) (run es (fresh_field value)))
enter_selects_tag value es i o e =
    enter_selects (run es (fresh_field value)) i
      (run-IsInRange es (fresh_field value) (λ (h : false ≡ true). cc)) o e
