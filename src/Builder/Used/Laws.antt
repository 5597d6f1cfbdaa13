-- ===== src/Builder/Used/Laws.antt =====
-- components/compose/ComposeBuilder.tsx: what `syncTopLevelVolumes` does to each volume.
use mathlib.Core.List.{append_assoc}
use mathlib.Core.Path.{subst}
use vps_pilot.Base.{
  String, ◌≡◌, refl, sym, ap, ◌∙◌, Bool, true, false, not, ◌&&◌, ◌||◌, Option, none, some, List, [],
  ◌∷◌, ◌++◌, ◌==◌, eq_iff, eq_refl, arith, if◌then◌else◌, or_else, Bool-cases, inl, inr,
}
use vps_pilot.Base.Dict.{
  Dict, lookup, insert, erase, has_key, NodupKeys, lookup-insert, has_key-insert, has_key-append,
  insert-NodupKeys, lookup-absent,
}
use vps_pilot.Js.{Value, obj, end, truthy, has_keys}
use vps_pilot.Base.Sets.{has}
use vps_pilot.Builder.Used.{is_unused, declare_all, delete_unused, sync_volumes}

has_key-some :
    (k : String) (d : Dict Value) → has_key k d ≡ true → (v : Value) × (lookup k d ≡ some v)
unfolding has_key lookup
has_key-some k [] h = cc
has_key-some k ((j, v) ∷ d) h = elim (Bool-cases (j == k)) [
  | inl t ↦ (v, rw t refl)
  | inr f ↦ let (w, e) = has_key-some k d (rw f at h) in (w, rw f e)
]

-- `map[k]` after `declare_all`.
lookup-declare_all :
    (used : List String) (k : String) (d : Dict Value)
    → lookup k (declare_all used d)
      ≡ (if has k used then some (or_else (lookup k d) (obj end)) else lookup k d)
unfolding declare_all
lookup-declare_all [] k d = refl
lookup-declare_all (vol ∷ vols) k d = elim (Bool-cases (has_key vol d)) [
  | inl there ↦
      rw (there, lookup-declare_all vols k d)
        (ground (arith, eq_iff vol k, has_key-some vol d there))
  | inr missing ↦
      rw
        (
          missing,
          lookup-declare_all vols k (insert vol (obj end) d),
          lookup-insert vol k (obj end) d,
        )
        (ground (arith, eq_iff vol k, lookup-absent vol d missing))
]

pub has-declare_all :
    (used : List String) (k : String) (d : Dict Value)
    → has_key k (declare_all used d) ≡ (has k used || has_key k d)
unfolding declare_all
has-declare_all [] k d = refl
has-declare_all (vol ∷ vols) k d = ground (
  arith,
  eq_iff vol k,
  has_key-insert vol k (obj end) d,
  has-declare_all vols k (if has_key vol d then d else insert vol (obj end) d),
)

pub declare_all-NodupKeys :
    (used : List String) (d : Dict Value) → NodupKeys d → NodupKeys (declare_all used d)
unfolding declare_all
declare_all-NodupKeys [] d u = u
declare_all-NodupKeys (vol ∷ vols) d u = elim (Bool-cases (has_key vol d)) [
  | inl there ↦ rw there (declare_all-NodupKeys vols d u)
  | inr missing ↦
      rw missing
        (declare_all-NodupKeys vols (insert vol (obj end) d) (insert-NodupKeys vol (obj end) d u))
]

-- The entries that stay.
abbrev pub kept : List String → Dict Value → Dict Value
kept used [] = []
kept used ((vol, config) ∷ es) =
    let rest = kept used es in if is_unused used vol config then rest else (vol, config) ∷ rest

erase-absent : (k : String) (d : Dict Value) → has_key k d ≡ false → erase k d ≡ d
unfolding erase has_key
erase-absent k [] h = refl
erase-absent k ((j, w) ∷ d) h = ground (arith, erase-absent k d)

erase-middle :
    (d : Dict Value) (k : String) (v : Value) (n : Dict Value)
    → NodupKeys (d ++ (k, v) ∷ n)
    → erase k (d ++ (k, v) ∷ n) ≡ d ++ n
unfolding erase has_key
erase-middle [] k v n (h, u) = ground (arith, eq_iff k k, erase-absent k n)
erase-middle ((j, w) ∷ d) k v n (h, u) =
    ground (arith, eq_iff j k, eq_iff k j, has_key-append j d ((k, v) ∷ n), erase-middle d k v n u)

NodupKeys-drop :
    (d : Dict Value) (k : String) (v : Value) (n : Dict Value)
    → NodupKeys (d ++ (k, v) ∷ n)
    → NodupKeys (d ++ n)
unfolding has_key
NodupKeys-drop [] k v n (h, u) = u
NodupKeys-drop ((j, w) ∷ d) k v n (h, u) =
    ground (arith, has_key-append j d ((k, v) ∷ n), has_key-append j d n, NodupKeys-drop d k v n u)

delete_unused-append :
    (used : List String) (pre es : Dict Value)
    → NodupKeys (pre ++ es)
    → delete_unused used es (pre ++ es) ≡ pre ++ kept used es
unfolding delete_unused
delete_unused-append used pre [] u = refl
delete_unused-append used pre ((vol, config) ∷ es) u =
    elim (Bool-cases (is_unused used vol config)) [
      | inl t ↦
          rw (t, erase-middle pre vol config es u)
            (delete_unused-append used pre es (NodupKeys-drop pre vol config es u))
      | inr f ↦
          let a = append_assoc pre ((vol, config) ∷ []) es in
          rw f (
            sym (ap (delete_unused used es) a)
            ∙ delete_unused-append used (pre ++ (vol, config) ∷ []) es (subst NodupKeys (sym a) u)
            ∙ append_assoc pre ((vol, config) ∷ []) (kept used es))
    ]

delete_unused-kept :
    (used : List String) (d : Dict Value) → NodupKeys d → delete_unused used d d ≡ kept used d
delete_unused-kept used d u = delete_unused-append used [] d u

-- A configuration that says something.
abbrev has_content : Value → Bool
has_content config = truthy config && has_keys config

abbrev pub if_content : Option Value → Option Value
if_content none = none
if_content (some config) = if has_content config then some config else none

pub has_key-kept :
    (used : List String) (k : String) (d : Dict Value)
    → has_key k d ≡ false
    → has_key k (kept used d) ≡ false
unfolding has_key
has_key-kept used k [] h = refl
has_key-kept used k ((j, c) ∷ d) h = ground (arith, has_key-kept used k d)

pick :
    (h t q : Bool) (o : Option Value)
    → (if not h && (not t || not q) then none else o)
      ≡ (if h then o else if t && q then o else none)
pick true t q o = refl
pick false true true o = refl
pick false true false o = refl
pick false false q o = refl

lookup-if :
    (b : Bool) (k j : String) (c : Value) (d : Dict Value)
    → (if b then lookup k d else lookup k ((j, c) ∷ d)) ≡ lookup k (if b then d else (j, c) ∷ d)
lookup-if true k j c d = refl
lookup-if false k j c d = refl

lookup-there :
    (k j : String) (c : Value) (d : Dict Value)
    → (j == k) ≡ false
    → lookup k ((j, c) ∷ d) ≡ lookup k d
unfolding lookup
lookup-there k j c d f = rw f refl

lookup-here : (k : String) (c : Value) (d : Dict Value) → lookup k ((k, c) ∷ d) ≡ some c
unfolding lookup
lookup-here k c d = rw (eq_refl k) refl

if_same : (b : Bool) (o : Option Value) → (if b then o else o) ≡ o
if_same true o = refl
if_same false o = refl

lookup-kept_nil :
    (b : Bool) (k : String) → lookup k [] ≡ (if b then lookup k [] else if_content (lookup k []))
unfolding lookup
lookup-kept_nil true k = refl
lookup-kept_nil false k = refl

lookup-kept_here :
    (used : List String) (k : String) (c : Value) (d : Dict Value)
    → has_key k d ≡ false
    → lookup k (kept used ((k, c) ∷ d))
      ≡ (if has k used then lookup k ((k, c) ∷ d) else if_content (lookup k ((k, c) ∷ d)))
lookup-kept_here used k c d h =
    sym (lookup-if (is_unused used k c) k k c (kept used d))
    ∙ rw
        (
          lookup-here k c (kept used d),
          lookup-here k c d,
          lookup-absent k (kept used d) (has_key-kept used k d h),
        )
        (pick (has k used) (truthy c) (has_keys c) (some c))

lookup-kept :
    (used : List String) (k : String) (d : Dict Value)
    → NodupKeys d
    → lookup k (kept used d) ≡ (if has k used then lookup k d else if_content (lookup k d))
lookup-kept used k [] u = lookup-kept_nil (has k used) k
lookup-kept used k ((j, c) ∷ d) (h, u) = elim (Bool-cases (j == k)) [
  | inl t ↦
      subst
        (λ n.
          lookup n (kept used ((j, c) ∷ d))
          ≡ (if has n used then lookup n ((j, c) ∷ d) else if_content (lookup n ((j, c) ∷ d))))
        (ground (arith, eq_iff j k)) (lookup-kept_here used j c d h)
  | inr f ↦
      sym (lookup-if (is_unused used j c) k j c (kept used d))
      ∙ rw (lookup-there k j c (kept used d) f, lookup-there k j c d f)
          (if_same (is_unused used j c) (lookup k (kept used d)) ∙ lookup-kept used k d u)
]

pub sync_volumes-kept :
    (used : List String) (d : Dict Value)
    → NodupKeys d
    → sync_volumes used d ≡ kept used (declare_all used d)
unfolding sync_volumes
sync_volumes-kept used d u =
    delete_unused-kept used (declare_all used d) (declare_all-NodupKeys used d u)

-- After the synchronisation a used volume has its configuration, or an empty one, and an unused
-- volume is there exactly if its configuration says something.
pub lookup-sync_volumes :
    (used : List String) (k : String) (d : Dict Value)
    → NodupKeys d
    → lookup k (sync_volumes used d)
      ≡ (if has k used then some (or_else (lookup k d) (obj end)) else if_content (lookup k d))
lookup-sync_volumes used k d u =
    ap (lookup k) (sync_volumes-kept used d u)
    ∙ lookup-kept used k (declare_all used d) (declare_all-NodupKeys used d u)
    ∙ rw (lookup-declare_all used k d) (ground arith)
