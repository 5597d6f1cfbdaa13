-- ===== src/Builder/Image.antt =====
-- components/compose/ComposeBuilder.tsx: `parseImageRef`, and `ImageField` with its list of tags.
-- The timer that delays a search, the loading flag and the focus are left out: the end of a search
-- is an event with its result. The selected index -1 is `none`.
pub mod Laws
pub mod Parts
use Prim.Native.Char.{code}
use Prim.Native.String.{[], ◌∷◌}
use vps_pilot.Base.{
  ℕ, zero, suc, ◌+◌, ◌-◌, String, ◌<>◌, Bool, true, false, not, ◌&&◌, ◌||◌, Option, none, some,
  List, ◌==◌, eqb, ltb, if◌then◌else◌, length, is_nil,
}
use vps_pilot.Base.Text.{nonempty, is_blank}
use vps_pilot.Compose.Port.{shown}

-- The text in front of the first occurrence of a character and the text behind it, as
-- `indexOf` and two calls of `slice` give them.
unfoldable pub cut : ℕ → String → Option (String × String)
cut sep [] = none
cut sep (c ∷ s) =
    let rest = cut sep s in
    if eqb (code c) sep
    then some ("", s)
    else elim rest [ none ↦ none | some (a, b) ↦ some (c ∷ a, b) ]

-- `s.includes(c)`, for one character.
unfoldable pub includes : ℕ → String → Bool
includes sep [] = false
includes sep (c ∷ s) = eqb (code c) sep || includes sep s

pub record ImageRef : Type 0 where
  pub prefix : String
  pub rest : String

abbrev pub no_prefix : String → ImageRef
no_prefix value = record { prefix = ""; rest = value }

-- `first.includes(".") || first.includes(":") || first === "localhost"`, where `slash > 0`.
abbrev pub is_registry : String → Bool
is_registry first =
    nonempty first && (includes b'.' first || (includes b':' first || first == "localhost"))

abbrev pub ref_of : String → Option (String × String) → ImageRef
ref_of value none = no_prefix value
ref_of value (some (first, rest)) =
    if is_registry first then record { prefix = first <> "/"; rest = rest } else no_prefix value

unfoldable pub parse_image_ref : String → ImageRef
unfolding cut includes
parse_image_ref value = ref_of value (cut b'/' value)

-- The part of the rest in front of its first colon.
abbrev pub name_of : String → Option (String × String) → String
name_of rest none = rest
name_of rest (some (name, tag)) = name

unfoldable pub image_name : String → String
unfolding cut
image_name rest = name_of rest (cut b':' rest)

-- The field: the image that it edits, and the list of tags.
pub record ImageField : Type 0 where
  pub value : String
  pub tags : List String
  pub tags_open : Bool
  pub selected_idx : Option ℕ

-- `tags[i]`
abbrev pub tag_at : List String → ℕ → Option String
tag_at List.[] i = none
tag_at (List.◌∷◌ t ts) zero = some t
tag_at (List.◌∷◌ t ts) (suc i) = tag_at ts i

-- `Math.min(i + 1, tags.length - 1)`
abbrev pub next_index : ℕ → Option ℕ → Option ℕ
next_index n none = if ltb 0 (n - 1) then some 0 else some (n - 1)
next_index n (some i) = if ltb (i + 1) (n - 1) then some (i + 1) else some (n - 1)

-- `Math.max(i - 1, -1)`
abbrev pub previous_index : Option ℕ → Option ℕ
previous_index none = none
previous_index (some zero) = none
previous_index (some (suc i)) = some i

-- `selectTag`
unfoldable pub select_tag : Option String → ImageField → ImageField
unfolding parse_image_ref image_name
select_tag tag s =
    let parsed = parse_image_ref s.value in
    record s {
      value = parsed.prefix <> (image_name parsed.rest <> (":" <> shown tag));
      tags_open = false;
      selected_idx = none;
    }

-- `handleRestChange`
unfoldable pub rest_change : String → ImageField → ImageField
unfolding parse_image_ref includes
rest_change new_rest s =
    let value = (parse_image_ref s.value).prefix <> new_rest in
    if includes b':' new_rest
    then record s { value = value }
    else record s { value = value; tags = List.[]; tags_open = false }

pub data Key : Type 0 where
  arrow_down arrow_up enter escape backspace other : Key

-- Backspace in an empty rest removes the registry.
unfoldable pub backspace_key : Key → ImageField → ImageField
unfolding parse_image_ref
backspace_key backspace s =
    if (parse_image_ref s.value).rest == "" then record s { value = "" } else s
backspace_key k s = s

-- Enter with `selectedIdx >= 0`; without it the key is passed on.
abbrev pub enter_key : Option ℕ → ImageField → ImageField
enter_key none s = s
enter_key (some i) s = select_tag (tag_at s.tags i) s

unfoldable pub list_key : Key → ImageField → ImageField
unfolding select_tag backspace_key
list_key arrow_down s = record s { selected_idx = next_index (length s.tags) s.selected_idx }
list_key arrow_up s = record s { selected_idx = previous_index s.selected_idx }
list_key enter s = enter_key s.selected_idx s
list_key escape s = record s { tags_open = false; selected_idx = none }
list_key k s = backspace_key k s

-- `handleKeyDown`
unfoldable pub key_down : Key → ImageField → ImageField
unfolding list_key backspace_key
key_down k s = if s.tags_open && not (is_nil s.tags) then list_key k s else backspace_key k s

pub data Event : Type 0 where
  typed : String → Event
  key : Key → Event
  clicked : String → Event
  clicked_outside : Event
  tags_found : List String → Event
  search_failed : Event

unfoldable pub handle : Event → ImageField → ImageField
unfolding rest_change key_down select_tag
handle (typed r) s = rest_change r s
handle (key k) s = key_down k s
handle (clicked tag) s = select_tag (some tag) s
handle clicked_outside s = record s { tags_open = false }
handle (tags_found result) s = record s {
  tags = result;
  tags_open = ltb 0 (length result);
  selected_idx = none;
}
handle search_failed s = record s { tags = List.[]; tags_open = false }

unfoldable pub run : List Event → ImageField → ImageField
unfolding handle
run List.[] s = s
run (List.◌∷◌ e es) s = run es (handle e s)

-- The field when it is shown first.
abbrev pub fresh_field : String → ImageField
fresh_field value = record { value = value; tags = List.[]; tags_open = false; selected_idx = none }

-- `value.trim() !== "" && !value.includes(":")`
unfoldable tag_missing : String → Bool
unfolding is_blank includes
tag_missing value = not (is_blank value) && not (includes b':' value)
