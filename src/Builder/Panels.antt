-- ===== src/Builder/Panels.antt =====
-- components/compose/ComposeBuilder.tsx: `TopLevelNetworksPanel`, `TopLevelVolumesPanel`, and the
-- variables of `EnvSection` and `KVSection`.
-- A panel changes an entry's object in place, which the file before the edit shares; the model gives
-- the file after it. What is set on an array beside its items is left out: js-yaml does not dump it.
pub mod Laws
use vps_pilot.Base.{
  suc, String, Bool, true, false, not, ◌||◌, Option, none, some, ◌==◌, if◌then◌else◌, length,
  or_else,
}
use vps_pilot.Base.Text.{nonempty}
use vps_pilot.Base.Dict.{Dict, lookup, insert, erase, keys}
use vps_pilot.Js.{
  Value, Fields, undefined, null, bool, num, str, arr, obj, end, field, truthy, put, of_dict,
  fields, Result, ok, type_error, ◌>>=◌,
}
use vps_pilot.Builder.Keys.{rename_key, set_value, free_from}

-- `networks[name]`
abbrev pub at : String → Dict Value → Value
at name d = or_else (lookup name d) undefined

-- `!!networks[name]`
abbrev pub is_taken : Dict Value → String → Bool
is_taken d name = truthy (at name d)

-- `entry[key] = val`, or `delete entry[key]` where val is null. Setting throws where the entry is no object.
unfoldable set_option : String → Value → Value → Result Value
unfolding put erase
set_option key null (obj fs) = ok (obj (of_dict (erase key (fields fs))))
set_option key val (obj fs) = ok (obj (put key val fs))
set_option key null entry = ok entry
set_option key val (arr vs) = ok (arr vs)
set_option key val entry = type_error

-- `update`
unfoldable update_entry : String → String → Value → Dict Value → Result (Dict Value)
unfolding lookup insert set_option
update_entry name key val d = do
  entry ← set_option key val (if is_taken d name then at name d else obj end)
  ok (insert name entry d)

-- `rename`: nothing happens for an empty name, the same name or one whose value is truthy.
unfoldable pub rename_entry : String → String → Dict Value → Dict Value
unfolding lookup rename_key
rename_entry old new d =
    if not (nonempty new) || (new == old || is_taken d new) then d else rename_key old new d

unfoldable remove_entry : String → Dict Value → Dict Value
unfolding erase
remove_entry name d = erase name d

-- `while (networks[n]) n = base + ++i`; one round more than there are entries is enough.
unfoldable pub free_entry_name : String → Dict Value → String
unfolding free_from lookup
free_entry_name base d = free_from (suc (length (keys d))) base (is_taken d) 1 base

unfoldable pub add_entry : String → Dict Value → Dict Value
unfolding free_entry_name insert
add_entry base d = insert (free_entry_name base d) (obj end) d

unfoldable add_network : Dict Value → Dict Value
unfolding add_entry
add_network d = add_entry "network" d

unfoldable add_volume : Dict Value → Dict Value
unfolding add_entry
add_volume d = add_entry "volume" d

-- `update(oldKey, "key", val)` of the variables
unfoldable pub rename_variable : String → String → Dict String → Dict String
unfolding rename_key
rename_variable old new env = rename_key old new env

-- `update(oldKey, "value", val)`
unfoldable pub set_variable : String → String → Dict String → Dict String
unfolding set_value
set_variable key val env = set_value key val env

unfoldable remove_variable : String → Dict String → Dict String
unfolding erase
remove_variable key env = erase key env

-- `{ ...env, "": "" }`
unfoldable add_variable : Dict String → Dict String
unfolding insert
add_variable env = insert "" "" env
