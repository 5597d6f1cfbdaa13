-- ===== src/Builder/Keys.antt =====
-- The loops of components/compose/ComposeBuilder.tsx that rename a key or set a value in a fresh
-- object, `next[k === oldName ? newName : k] = v`, and the search for a name that is free.
pub mod Laws
pub mod Free
use vps_pilot.Base.{
  ℕ, zero, suc, ◌+◌, String, ◌<>◌, Bool, true, false, List, [], ◌∷◌, ◌==◌, if◌then◌else◌,
}
use vps_pilot.Base.Dict.{Dict, insert}
use vps_pilot.Js.{show_ℕ}

module _ {ℓ} {V : Type ℓ} where
  -- The loop over the entries of the old object.
  unfoldable pub rename_onto : String → String → Dict V → Dict V → Dict V
  unfolding insert
  rename_onto old new next [] = next
  rename_onto old new next ((k, v) ∷ es) =
      rename_onto old new (insert (if k == old then new else k) v next) es

  unfoldable pub rename_key : String → String → Dict V → Dict V
  unfolding rename_onto
  rename_key old new d = rename_onto old new [] d

  -- The same loop where the value is typed: `if (k === oldKey) next[k] = val; else next[k] = v`.
  unfoldable pub set_value_onto : String → V → Dict V → Dict V → Dict V
  unfolding insert
  set_value_onto old new next [] = next
  set_value_onto old new next ((k, v) ∷ es) =
      set_value_onto old new (insert k (if k == old then new else v) next) es

  unfoldable pub set_value : String → V → Dict V → Dict V
  unfolding set_value_onto
  set_value old new d = set_value_onto old new [] d

-- `while (taken(n)) n = base + ++i`, with fuel.
unfoldable pub free_from : ℕ → String → (String → Bool) → ℕ → String → String
free_from zero base taken i n = n
free_from (suc fuel) base taken i n =
    let rest = free_from fuel base taken (i + 1) (base <> show_ℕ (i + 1)) in
    if taken n then rest else n
