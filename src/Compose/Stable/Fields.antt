-- ===== src/Compose/Stable/Fields.antt =====
-- The plain fields and lists of a service, written, read and written again.

use vps_pilot.Base.{
  String, ◌≡◌, refl, Bool, true, false, Option, none, some, List, [], ◌∷◌, ◌==◌, or_else,
  Bool-cases, inl, inr,
}
use vps_pilot.Js.{Value, Number, undefined, to_text, text?, number?}
use vps_pilot.Base.Dict.{Dict}
use vps_pilot.Js.Laws.{map-to_text-texts, fields-of_dict}
use vps_pilot.Compose.Parse.{
  flag, str_arr, command_text, parse_labels, parse_sysctls, parse_networks,
}
use vps_pilot.Compose.Serialize.{
  text_write, restart_write, flag_write, number_write, list_write, map_write,
}

-- What is read of a key that was written under a condition.
abbrev pub reread : Option Value → Value
reread o = or_else o undefined

pub text_stable : (o : Option String) → text_write (text? (reread (text_write o))) ≡ text_write o
unfolding text_write
text_stable none = refl
text_stable (some String.[]) = refl
text_stable (some (String.◌∷◌ c s)) = refl

pub command_stable :
    (o : Option String) → text_write (command_text (reread (text_write o))) ≡ text_write o
unfolding text_write command_text
command_stable none = refl
command_stable (some String.[]) = refl
command_stable (some (String.◌∷◌ c s)) = refl

pub restart_stable :
    (o : Option String) → restart_write (text? (reread (restart_write o))) ≡ restart_write o
unfolding restart_write
restart_stable none = refl
restart_stable (some String.[]) = refl
restart_stable (some (String.◌∷◌ c s)) = elim (Bool-cases (String.◌∷◌ c s == "no")) [
  | inl t ↦ rw t refl
  | inr f ↦ rw f (rw f refl)
]

pub flag_stable : (o : Option Bool) → flag_write (flag (reread (flag_write o))) ≡ flag_write o
unfolding flag_write flag
flag_stable none = refl
flag_stable (some true) = refl
flag_stable (some false) = refl

pub number_stable :
    (o : Option Number) → number_write (number? (reread (number_write o))) ≡ number_write o
unfolding number_write
number_stable none = refl
number_stable (some n) = refl

pub list_stable :
    (o : Option (List String)) → list_write (str_arr (reread (list_write o))) ≡ list_write o
unfolding list_write str_arr to_text
list_stable none = refl
list_stable (some []) = refl
list_stable (some (s ∷ ss)) = rw (map-to_text-texts ss) refl

pub labels_stable :
    (o : Option (Dict Value)) → map_write (parse_labels (reread (map_write o))) ≡ map_write o
unfolding map_write parse_labels
labels_stable none = refl
labels_stable (some []) = refl
labels_stable (some ((k, v) ∷ m)) = rw (fields-of_dict m) refl

pub sysctls_stable :
    (o : Option (Dict Value)) → map_write (parse_sysctls (reread (map_write o))) ≡ map_write o
unfolding map_write parse_sysctls
sysctls_stable none = refl
sysctls_stable (some []) = refl
sysctls_stable (some ((k, v) ∷ m)) = rw (fields-of_dict m) refl

pub networks_stable :
    (o : Option (Dict Value)) → map_write (parse_networks (reread (map_write o))) ≡ map_write o
unfolding map_write parse_networks
networks_stable none = refl
networks_stable (some []) = refl
networks_stable (some ((k, v) ∷ m)) = rw (fields-of_dict m) refl
