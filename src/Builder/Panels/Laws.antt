-- ===== src/Builder/Panels/Laws.antt =====
-- What the panels make of the entries of a file.
use vps_pilot.Base.{
  String, ◌≡◌, ◌≢◌, refl, ap, ◌∙◌, true, false, Option, none, some, [], ◌∷◌, ◌==◌, map, eq_iff,
  eq_refl, arith, if◌then◌else◌, Bool-cases, inl, inr, or_else,
}
use vps_pilot.Base.Text.{nonempty, eq_empty}
use vps_pilot.Base.Dict.{
  Dict, lookup, insert, has_key, keys, NodupKeys, has_key-insert, lookup-insert, lookup-absent,
}
use vps_pilot.Js.{Value, undefined, null, obj, end, truthy}
use vps_pilot.Base.Sets.{has}
use vps_pilot.Builder.Keys.{rename_onto, rename_key}
use vps_pilot.Builder.Keys.Laws.{renamed, rename_key-renamed, with_value, set_value-with_value}
use vps_pilot.Builder.Keys.Free.{free_from-is_free}
use vps_pilot.Builder.Panels.{
  is_taken, rename_entry, free_entry_name, add_entry, rename_variable, set_variable,
}

has-taken : (n : String) (d : Dict Value) → is_taken d n ≡ true → has n (keys d) ≡ true
unfolding lookup
has-taken n [] h = cc
has-taken n ((k, v) ∷ d) h = elim (Bool-cases (k == n)) [
  | inl t ↦ rw t refl
  | inr f ↦ rw f (has-taken n d (rw f at h))
]

free_entry_name-is_free :
    (base : String) (d : Dict Value) → is_taken d (free_entry_name base d) ≡ false
unfolding free_entry_name
free_entry_name-is_free base d =
    free_from-is_free base (is_taken d) (keys d) (λ n (h : is_taken d n ≡ true). has-taken n d h)

-- The search for a name ends: an empty entry is added under a name that has no value, or one that
-- counts as false, and every other entry is as it was.
add_entry_lem :
    (base k : String) (d : Dict Value)
    → (is_taken d (free_entry_name base d) ≡ false)
      × (lookup k (add_entry base d)
          ≡ (if free_entry_name base d == k then some (obj end) else lookup k d))
unfolding add_entry
add_entry_lem base k d =
    (free_entry_name-is_free base d, lookup-insert (free_entry_name base d) k (obj end) d)

module _ {V : Type 0} where
  abbrev first_of : Option V → Option V → Option V
  first_of none o = o
  first_of (some v) o = some v

  lookup-rename_onto :
      (old new j : String) (next es : Dict V)
      → j ≢ new
      → NodupKeys es
      → lookup j (rename_onto old new next es)
        ≡ (if j == old then lookup j next else first_of (lookup j es) (lookup j next))
  unfolding rename_onto lookup
  lookup-rename_onto old new j next [] n u = ground arith
  lookup-rename_onto old new j next ((k, v) ∷ es) n (h, u) =
      let name = (if k == old then new else k) in
      lookup-rename_onto old new j (insert name v next) es n u
      ∙ rw (lookup-insert name j v next)
          (ground (arith, eq_iff k old, eq_iff j old, eq_iff new j, eq_iff k j, lookup-absent j es))

  has_key-rename_onto :
      (old new j : String) (next es : Dict V)
      → has_key j next ≡ true
      → has_key j (rename_onto old new next es) ≡ true
  unfolding rename_onto
  has_key-rename_onto old new j next [] h = h
  has_key-rename_onto old new j next ((k, v) ∷ es) h =
      let name = (if k == old then new else k) in
      has_key-rename_onto old new j (insert name v next) es
        (has_key-insert name j v next ∙ rw h (ground arith))

  has_key-rename_onto_new :
      (old new : String) (next es : Dict V)
      → has_key old es ≡ true
      → has_key new (rename_onto old new next es) ≡ true
  unfolding rename_onto has_key
  has_key-rename_onto_new old new next [] h = cc
  has_key-rename_onto_new old new next ((k, v) ∷ es) h = elim (Bool-cases (k == old)) [
    | inl t ↦ rw t (
        has_key-rename_onto old new new (insert new v next) es
          (has_key-insert new new v next ∙ rw (eq_refl new) refl))
    | inr f ↦ rw f (has_key-rename_onto_new old new (insert k v next) es (rw f at h))
  ]

  -- After a renaming to another name, taken or not.
  lookup-rename_key :
      (old new j : String) (d : Dict V)
      → j ≢ new
      → NodupKeys d
      → lookup j (rename_key old new d) ≡ (if j == old then none else lookup j d)
  unfolding rename_key lookup
  lookup-rename_key old new j d n u =
      lookup-rename_onto old new j [] d n u
      ∙ ap (λ o. if j == old then none else o) (first_none (lookup j d))
    where
      first_none : (o : Option V) → first_of o none ≡ o
      first_none none = refl
      first_none (some v) = refl

-- A variable whose key is typed over with a free key keeps its place and its value, and one whose
-- value is typed keeps its place and its key; the other variables stay as they are.
variable_edits :
    (key new val : String) (env : Dict String)
    → NodupKeys env
    → has_key new env ≡ false
    → (rename_variable key new env ≡ map (renamed key new) env)
      × (set_variable key val env ≡ map (with_value key val) env)
unfolding rename_variable set_variable
variable_edits key new val env u free =
    (rename_key-renamed key new env free u, set_value-with_value key val env u)

-- A variable whose key becomes that of another one takes the other's place or is taken by it: one of
-- the two is lost, and the rest stays.
variable_lost :
    (key new other : String) (env : Dict String)
    → NodupKeys env
    → has_key key env ≡ true
    → has_key new env ≡ true
    → key ≢ new
    → other ≢ key
    → other ≢ new
    → (lookup key (rename_variable key new env) ≡ none)
      × (has_key new (rename_variable key new env) ≡ true)
      × (lookup other (rename_variable key new env) ≡ lookup other env)
unfolding rename_variable rename_key
variable_lost key new other env u k n d o p = (
  lookup-rename_key key new key env d u ∙ rw (eq_refl key) refl,
  has_key-rename_onto_new key new [] env k,
  lookup-rename_key key new other env p u ∙ ground (arith, eq_iff other key),
)

is_nonempty : (s : String) → s ≢ "" → nonempty s ≡ true
is_nonempty s e = elim (Bool-cases (nonempty s)) [ inl t ↦ t | inr f ↦ absurd (e (eq_empty s f)) ]

differs : (a b : String) → a ≢ b → (b == a) ≡ false
differs a b h = ground (arith, eq_iff b a)

passes :
    (old new : String) (d : Dict Value)
    → lookup new d ≡ some null
    → new ≢ ""
    → old ≢ new
    → rename_entry old new d ≡ rename_key old new d
unfolding rename_entry
passes old new d n e o =
    let free : is_taken d new ≡ false = ap (λ v. truthy (or_else v undefined)) n in
    rw (is_nonempty new e, differs old new o, free) refl

key_there :
    (old new : String) (d : Dict Value)
    → has_key old d ≡ true
    → has_key new (rename_key old new d) ≡ true
unfolding rename_key
key_there old new d h = has_key-rename_onto_new old new [] d h

-- Renaming a network or a volume onto one that is declared with an empty body, so that its value is
-- null, is not refused: one of the two entries is lost.
null_entry_lost :
    (old new : String) (d : Dict Value)
    → NodupKeys d
    → has_key old d ≡ true
    → lookup new d ≡ some null
    → new ≢ ""
    → old ≢ new
    → (lookup old (rename_entry old new d) ≡ none) × (has_key new (rename_entry old new d) ≡ true)
null_entry_lost old new d u h n e o =
    let go = passes old new d n e o in
    (
      ap (lookup old) go ∙ lookup-rename_key old new old d o u ∙ rw (eq_refl old) refl,
      ap (has_key new) go ∙ key_there old new d h,
    )
