-- ===== src/Builder/Keys/Laws.antt =====
-- What the loops that rename a key or set a value make of an object.
use mathlib.Core.List.{append-nil}
use mathlib.Core.Path.{subst}
use vps_pilot.Base.{
  String, ◌≡◌, ◌≢◌, refl, sym, ap, ◌∙◌, false, ◌||◌, [], ◌∷◌, ◌++◌, ◌==◌, eq_iff, arith,
  if◌then◌else◌, map,
}
use vps_pilot.Base.Dict.{Dict, insert, has_key, NodupKeys, insert-middle}
use vps_pilot.Builder.Keys.{rename_onto, rename_key, set_value_onto, set_value}

module _ {ℓ} {V : Type ℓ} where
  abbrev pub renamed : String → String → String × V → String × V
  renamed old new (k, v) = (if k == old then new else k, v)

  has_key-renamed :
      (old new k : String) (d : Dict V)
      → has_key new d ≡ false
      → k ≢ old
      → has_key k d ≡ false
      → k ≢ new
      → has_key k (map (renamed old new) d) ≡ false
  unfolding has_key
  has_key-renamed old new k [] f n h m = refl
  has_key-renamed old new k ((j, v) ∷ d) f n h m =
      ground
        (arith, eq_iff j old, eq_iff j k, eq_iff new k, eq_iff j new, has_key-renamed old new k d)

  has_key-renamed_new :
      (old new : String) (d : Dict V)
      → has_key new d ≡ false
      → has_key old d ≡ false
      → has_key new (map (renamed old new) d) ≡ false
  unfolding has_key
  has_key-renamed_new old new [] f h = refl
  has_key-renamed_new old new ((j, v) ∷ d) f h =
      ground (arith, eq_iff j old, eq_iff j new, has_key-renamed_new old new d)

  pub renamed-NodupKeys :
      (old new : String) (d : Dict V)
      → has_key new d ≡ false
      → NodupKeys d
      → NodupKeys (map (renamed old new) d)
  unfolding has_key
  renamed-NodupKeys old new [] f u = tt
  renamed-NodupKeys old new ((k, v) ∷ d) f (h, u) = ground (
    arith,
    eq_iff k old,
    eq_iff k new,
    has_key-renamed old new k d,
    has_key-renamed_new old new d,
    renamed-NodupKeys old new d,
  )

  rename_onto-append :
      (old new : String) (next es : Dict V)
      → NodupKeys (next ++ map (renamed old new) es)
      → rename_onto old new next es ≡ next ++ map (renamed old new) es
  unfolding rename_onto
  rename_onto-append old new next [] u = sym (append-nil next)
  rename_onto-append old new next ((k, v) ∷ es) u =
      let name = (if k == old then new else k) in
      let e = insert-middle next name v (map (renamed old new) es) u in
      rename_onto-append old new (insert name v next) es (subst NodupKeys (sym e) u) ∙ e

  -- A key that is renamed to a name which is not there keeps its place and its value, and the others
  -- stay as they are.
  pub rename_key-renamed :
      (old new : String) (d : Dict V)
      → has_key new d ≡ false
      → NodupKeys d
      → rename_key old new d ≡ map (renamed old new) d
  unfolding rename_key
  rename_key-renamed old new d f u =
      rename_onto-append old new [] d (renamed-NodupKeys old new d f u)

  -- A loop over all entries that keeps the keys.
  abbrev pub with_value : String → V → String × V → String × V
  with_value old new (k, v) = (k, if k == old then new else v)

  has_key-with_value :
      (old : String) (new : V) (k : String) (d : Dict V)
      → has_key k (map (with_value old new) d) ≡ has_key k d
  unfolding has_key
  has_key-with_value old new k [] = refl
  has_key-with_value old new k ((j, v) ∷ d) = ap (λ b. j == k || b) (has_key-with_value old new k d)

  with_value-NodupKeys :
      (old : String) (new : V) (d : Dict V) → NodupKeys d → NodupKeys (map (with_value old new) d)
  with_value-NodupKeys old new [] u = tt
  with_value-NodupKeys old new ((k, v) ∷ d) (h, u) =
      (has_key-with_value old new k d ∙ h, with_value-NodupKeys old new d u)

  set_value_onto-append :
      (old : String) (new : V) (next es : Dict V)
      → NodupKeys (next ++ map (with_value old new) es)
      → set_value_onto old new next es ≡ next ++ map (with_value old new) es
  unfolding set_value_onto
  set_value_onto-append old new next [] u = sym (append-nil next)
  set_value_onto-append old new next ((k, v) ∷ es) u =
      let val = (if k == old then new else v) in
      let e = insert-middle next k val (map (with_value old new) es) u in
      set_value_onto-append old new (insert k val next) es (subst NodupKeys (sym e) u) ∙ e

  pub set_value-with_value :
      (old : String) (new : V) (d : Dict V)
      → NodupKeys d
      → set_value old new d ≡ map (with_value old new) d
  unfolding set_value
  set_value-with_value old new d u =
      set_value_onto-append old new [] d (with_value-NodupKeys old new d u)
