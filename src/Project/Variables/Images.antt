-- ===== src/Project/Variables/Images.antt =====
-- pages/ProjectDetail.tsx: when the images of a project count imgs changed.
use vps_pilot.Base.{
  suc, String, ◌≡◌, refl, sym, ap, ◌∙◌, Bool, true, false, not, ◌||◌, List, [], ◌∷◌, ◌==◌, eq_iff,
  eq_refl, ◌≤◌, length, arith, Bool-cases, inl, inr, ◌↔◌,
}
use vps_pilot.Base.Text.{same_text}
use vps_pilot.Base.Sets.{has, delete, has-delete}
use vps_pilot.Project.Variables.{some_missing, images_changed}

-- A set has no entry twice.
abbrev pub Distinct : List String → Type 0
Distinct [] = Unit
Distinct (n ∷ ns) = (has n ns ≡ false) × Distinct ns

delete-absent : (a : String) (set : List String) → has a set ≡ false → delete a set ≡ set
unfolding delete
delete-absent a [] h = refl
delete-absent a (n ∷ ns) h = ground (arith, delete-absent a ns)

length-delete :
    (a : String) (set : List String)
    → Distinct set
    → has a set ≡ true
    → suc (length (delete a set)) ≡ length set
unfolding delete
length-delete a [] d h = cc
length-delete a (n ∷ ns) (m, d) h = elim (Bool-cases (n == a)) [
  | inl t ↦
      let absent = ap (λ x. has x ns) (sym (same_text n a t)) ∙ m in
      rw t (ap (λ r. suc (length r)) (delete-absent a ns absent))
  | inr f ↦ rw f (ap suc (length-delete a ns d (rw f at h)))
]

delete-Distinct : (a : String) (set : List String) → Distinct set → Distinct (delete a set)
unfolding delete
delete-Distinct a [] d = tt
delete-Distinct a (n ∷ ns) (m, d) = elim (Bool-cases (n == a)) [
  | inl t ↦ rw t (delete-Distinct a ns d)
  | inr f ↦ rw f (ground (arith, has-delete a n ns), delete-Distinct a ns d)
]

still_there :
    (before : List String) (a : String) (imgs : List String)
    → has a imgs ≡ false
    → some_missing before imgs ≡ false
    → some_missing (delete a before) imgs ≡ false
still_there before a [] h k = refl
still_there before a (b ∷ bs) h k =
    ground (arith, eq_iff a b, eq_iff b a, has-delete a b before, still_there before a bs)

has-same : (a b : String) (set : List String) → a ≡ b → has a set ≡ has b set
has-same a b set e = ap (λ x. has x set) e

found : {a b : Bool} → (not a || b) ≡ false → (a ≡ true) × (b ≡ false)
found {a} {b} h = (ground arith, ground arith)

-- A part of a set has no more entries than the set.
subset-length :
    (after before : List String)
    → Distinct after
    → Distinct before
    → some_missing before after ≡ false
    → length after ≤ length before
subset-length [] before d e m = omega arith
subset-length (a ∷ imgs) before (n, d) e m =
    let (there, rest) = found m in
    omega (
      arith,
      subset-length imgs (delete a before) d (delete-Distinct a before e)
          (still_there before a imgs n rest),
      length-delete a before e there,
    )

-- Sets of the same size are equal if one is part of the other.
same_size :
    (after before : List String)
    → Distinct after
    → Distinct before
    → length after ≡ length before
    → some_missing before after ≡ false
    → (i : String) → has i before ≡ has i after
same_size [] [] d e l m i = refl
same_size [] (b ∷ bs) d e l m i = absurd (omega arith)
same_size (a ∷ imgs) before (n, d) e l m i =
    let (there, others) = found m in
    let rest =
      same_size imgs (delete a before) d (delete-Distinct a before e)
        (omega (arith, length-delete a before e there)) (still_there before a imgs n others) i in
    ground (arith, eq_iff a i, has-delete a i before, has-same a i before, rest)

none_missing :
    (before after : List String)
    → ((i : String) → has i after ≡ true → has i before ≡ true)
    → some_missing before after ≡ false
none_missing before [] h = refl
none_missing before (a ∷ imgs) h =
    rw (h a (rw (eq_refl a) refl)) (none_missing before imgs (λ i k. h i (later a i k)))
  where
    later : (a i : String) {b : Bool} → b ≡ true → (a == i || b) ≡ true
    later a i k = ground arith

no_change :
    (before after : List String)
    → length after ≡ length before
    → some_missing before after ≡ false
    → images_changed before after ≡ false
unfolding images_changed
no_change before after l m = ground arith

unchanged :
    (before after : List String)
    → images_changed before after ≡ false
    → (length after ≡ length before) × (some_missing before after ≡ false)
unfolding images_changed
unchanged before after h = (ground arith, ground arith)

-- For two sets of images, as lists without duplicates, the images of a project count as changed
-- exactly when the sets differ, though the code compares the sizes and looks in one direction
-- only.
pub images_changed_iff :
    (before after : List String)
    → Distinct before
    → Distinct after
    → (images_changed before after ≡ false) ↔ ((i : String) → has i before ≡ has i after)
images_changed_iff before after d e = (
  λ h. let (l, m) = unchanged before after h in same_size after before e d l m,
  λ h.
      let forth = none_missing before after (λ i k. h i ∙ k) in
      let back = none_missing after before (λ i k. sym (h i) ∙ k) in
      no_change before after
        (omega (arith, subset-length after before e d forth, subset-length before after d e back))
        forth,
)
