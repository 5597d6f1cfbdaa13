-- ===== src/Compose/Reading/Pairs.antt =====
-- The two forms of environment, labels and sysctls: a map, and a list of `KEY=value`.

use vps_pilot.Base.{String, ◌<>◌, ◌≡◌, refl, ap, ◌∙◌, some, [], ◌∷◌, All}
use vps_pilot.Base.Text.{split, Free, split-append_sep, join-split}
use vps_pilot.Base.Dict.{Dict, NodupKeys, insert}
use vps_pilot.Js.{Items, str, arr, obj, nil, cons, items, fields, to_text, text_fields}
use vps_pilot.Compose.Parse.{
  add_pair, pairs_onto, entries_onto, parse_environment, text_values, parse_labels, parse_sysctls,
}
use vps_pilot.Compose.Stable.Maps.{entries_onto-text_fields}

-- The map as a list of `KEY=value`.
abbrev pub pair_items : Dict String → Items
pair_items [] = nil
pair_items ((k, v) ∷ m) = cons (str (k <> ("=" <> v))) (pair_items m)

abbrev KeysAreFree : Dict String → Type 0
KeysAreFree m = All (λ (e : String × String). Free b'=' e.0) m

-- One item adds its key with its whole value, further `=` included.
add_pair-text :
    (k v : String) (m : Dict String)
    → Free b'=' k
    → add_pair (split b'=' (k <> ("=" <> v))) m ≡ insert k v m
add_pair-text k v m h =
    ap (λ ps. add_pair ps m) (split-append_sep "=" k v h)
    ∙ ap (λ s. insert k s m) (join-split "=" v)

pairs_onto-pair_items :
    (acc m : Dict String)
    → KeysAreFree m
    → pairs_onto acc (items (pair_items m)) ≡ entries_onto acc (fields (text_fields m))
unfolding pairs_onto entries_onto to_text
pairs_onto-pair_items acc [] h = refl
pairs_onto-pair_items acc ((k, v) ∷ m) (h, hs) =
    rw (add_pair-text k v acc h, pairs_onto) (pairs_onto-pair_items (insert k v acc) m hs)

-- An environment as a list of KEY=value is read as the one that is a map, if no key holds '='.
pub environment_forms :
    (m : Dict String)
    → KeysAreFree m
    → parse_environment (arr (pair_items m)) ≡ parse_environment (obj (text_fields m))
unfolding parse_environment
environment_forms m h = ap some (pairs_onto-pair_items [] m h)

text_values-fields : (m : Dict String) → text_values m ≡ fields (text_fields m)
text_values-fields [] = refl
text_values-fields ((k, v) ∷ m) = ap (λ l. (k, str v) ∷ l) (text_values-fields m)

values_again :
    (m : Dict String)
    → KeysAreFree m
    → NodupKeys m
    → text_values (pairs_onto [] (items (pair_items m))) ≡ fields (text_fields m)
values_again m h u =
    ap text_values (pairs_onto-pair_items [] m h ∙ entries_onto-text_fields [] m u)
    ∙ text_values-fields m

-- Both forms of labels and of sysctls are read alike, if no key holds "=" and none comes twice.
label_forms :
    (m : Dict String)
    → KeysAreFree m
    → NodupKeys m
    → (parse_labels (arr (pair_items m)) ≡ parse_labels (obj (text_fields m)))
      × (parse_sysctls (arr (pair_items m)) ≡ parse_sysctls (obj (text_fields m)))
unfolding parse_labels parse_sysctls
label_forms m h u = (ap some (values_again m h u), ap some (values_again m h u))
