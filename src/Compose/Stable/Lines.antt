-- ===== src/Compose/Stable/Lines.antt =====
-- The ports and mounts of a service, printed, read and printed again.

use mathlib.Core.Path.{subst, subst⁻¹}
use vps_pilot.Base.{
  Bool-cases, inl, inr, String, ◌≡◌, refl, ap, true, Option, none, some, List, [], ◌∷◌, map, All,
}
use vps_pilot.Base.Text.{Free, nonempty}
use vps_pilot.Js.{
  Value, str, arr, of_list, truthy, is_nullish, member, to_text, Result, ok, type_error, ◌>>=◌,
  map_result,
}
use vps_pilot.Js.Laws.{items-of_list, >>=-eq-ok}
use vps_pilot.Compose.Port.{parse_port_spec, port_spec_to_string}
use vps_pilot.Compose.Port.Laws.{HasParts as PortHasParts}
use vps_pilot.Compose.Port.Normal.{reprint as port_reprint}
use vps_pilot.Compose.Mount.{VolumeMount, volume_mount_to_string}
use vps_pilot.Compose.Mount.Laws.{HasParts as MountHasParts, reprint as mount_reprint}
use vps_pilot.Compose.Service.{PortEntry, spec, null_port, bool_port, MountEntry, mount, raw_mount}
use vps_pilot.Compose.Parse.{parse_port, parse_ports, parse_mount, parse_volumes}
use vps_pilot.Compose.Serialize.{print_port, ports_write, print_raw, print_mount, volumes_write}
use vps_pilot.Compose.Stable.Fields.{reread}

-- The predicate holds of every element of an optional list.
abbrev pub OptionAll : {A : Type 0} → (A → Type 0) → Option (List A) → Type 0
OptionAll P none = Unit
OptionAll P (some xs) = All P xs

-- An `xs.map(f)` that succeeds, once more over what its results are read as.
pub map_result-map :
    {A B : Type 0} (f : A → Result B) (g : B → A) (P : A → Type 0)
    → ((x : A) (y : B) → P x → f x ≡ ok y → f (g y) ≡ ok y)
    → (xs : List A) (ys : List B) → All P xs
    → map_result f xs ≡ ok ys
    → map_result f (map g ys) ≡ ok ys
unfolding map_result
map_result-map f g P step [] [] h e = refl
map_result-map f g P step [] (y ∷ ys) h e = cc
map_result-map f g P step (x ∷ xs) ys (p, h) e =
    let (y, here, e') = >>=-eq-ok (f x) _ e in
    let (zs, later, whole) = >>=-eq-ok (map_result f xs) _ e' in
    let same : ys ≡ y ∷ zs = cc in
    rw (same, step x y p here, map_result-map f g P step xs zs h later) refl

map_result-cons :
    {A B : Type 0} (f : A → Result B) (x : A) (xs : List A) (ys : List B)
    → map_result f (x ∷ xs) ≡ ok ys
    → (y : B) × (zs : List B) × (ys ≡ y ∷ zs)
unfolding map_result
map_result-cons f x xs ys e =
    let (y, here, e') = >>=-eq-ok (f x) _ e in
    let (zs, later, whole) = >>=-eq-ok (map_result f xs) _ e' in (y, zs, cc)

-- A port that prints to the text it is read from: any but null; of a read one, one with clean parts.
abbrev pub PortIsStable : PortEntry → Type 0
PortIsStable (spec p) = PortHasParts p
PortIsStable null_port = Unit
PortIsStable (bool_port b) = Unit

port_stable :
    (x : PortEntry) (y : Value)
    → PortIsStable x
    → print_port x ≡ ok y
    → print_port (parse_port y) ≡ ok y
unfolding print_port parse_port parse_port_spec port_spec_to_string
port_stable (spec p) y h e =
    let same : y ≡ str (port_spec_to_string p) = cc in
    rw same (ap (λ s. ok (str s)) (port_reprint p h))
port_stable null_port y h e = cc
port_stable (bool_port b) y h e = let same : y ≡ str "undefined" = cc in rw same refl

-- The value of printed lines, and how it is passed on.
abbrev as_array : List Value → Result (Option Value)
as_array lines = ok (some (arr (of_list lines)))

abbrev bound : Result (List Value) → Result (Option Value)
bound r = r >>= as_array

ports_again :
    (l : Value) (ls : List Value)
    → map_result print_port (map parse_port (l ∷ ls)) ≡ ok (l ∷ ls)
    → ports_write (parse_ports (arr (of_list (l ∷ ls)))) ≡ as_array (l ∷ ls)
unfolding ports_write parse_ports map_result
ports_again l ls h = rw (items-of_list ls) (ap bound h)

mounts_again :
    (l : Value) (ls : List Value)
    → map_result print_mount (map parse_mount (l ∷ ls)) ≡ ok (l ∷ ls)
    → volumes_write (parse_volumes (arr (of_list (l ∷ ls)))) ≡ as_array (l ∷ ls)
unfolding volumes_write parse_volumes map_result
mounts_again l ls h = rw (items-of_list ls) (ap bound h)

-- The lines of a list that is not empty, once more.
lines_again :
    {A : Type 0} (f : A → Result Value) (g : Value → A) (P : A → Type 0)
    → ((x : A) (y : Value) → P x → f x ≡ ok y → f (g y) ≡ ok y)
    → (x : A) (xs : List A) (out : Option Value) → All P (x ∷ xs)
    → bound (map_result f (x ∷ xs)) ≡ ok out
    → (l : Value) × (ls : List Value) × (out ≡ some (arr (of_list (l ∷ ls))))
      × (map_result f (map g (l ∷ ls)) ≡ ok (l ∷ ls))
lines_again f g P step x xs out h e =
    let (lines, printed, whole) = >>=-eq-ok (map_result f (x ∷ xs)) as_array e in
    let (l, ls, shape) = map_result-cons f x xs lines printed in
    let again = map_result-map f g P step (x ∷ xs) lines h printed in
    (l, ls, cc, subst (λ t. map_result f (map g t) ≡ ok t) shape again)

pub ports_stable :
    (o : Option (List PortEntry)) (out : Option Value)
    → OptionAll PortIsStable o
    → ports_write o ≡ ok out
    → ports_write (parse_ports (reread out)) ≡ ok out
unfolding ports_write parse_ports
ports_stable none out h e = let same : out ≡ none = cc in rw same refl
ports_stable (some []) out h e = let same : out ≡ none = cc in rw same refl
ports_stable (some (p ∷ ps)) out h e =
    let (l, ls, shape, again) =
      lines_again print_port parse_port PortIsStable port_stable p ps out h e in
    subst⁻¹ (λ t. ports_write (parse_ports (reread t)) ≡ ok t) shape (ports_again l ls again)

-- A mount that prints to the text it is read from: a read one with clean parts, or a long form that
-- has a source and a target, both texts without a colon.
pub record LongForm (v : Value) : Type 0 where
  pub source : String
  pub target : String
  pub source_is : member "source" v ≡ str source
  pub target_is : member "target" v ≡ str target
  pub source_filled : nonempty source ≡ true
  pub source_part : Free b':' source
  pub target_part : Free b':' target

abbrev pub MountIsStable : MountEntry → Type 0
MountIsStable (mount v) = MountHasParts v
MountIsStable (raw_mount v) = LongForm v

-- The mount that the long form prints as.
abbrev short_form : (v : Value) → LongForm v → VolumeMount
short_form v h = record {
  source = h.source;
  target = h.target;
  read_only = some (truthy (member "readOnly" v));
}

print_raw-short_form :
    (v : Value) (h : LongForm v) → print_raw v ≡ str (volume_mount_to_string (short_form v h))
unfolding volume_mount_to_string to_text
print_raw-short_form v h = rw (h.source_is, h.target_is, h.source_filled) refl

mount_stable :
    (x : MountEntry) (y : Value)
    → MountIsStable x
    → print_mount x ≡ ok y
    → print_mount (parse_mount y) ≡ ok y
unfolding print_mount parse_mount
mount_stable (mount v) y h e =
    let same : y ≡ str (volume_mount_to_string v) = cc in
    rw same (ap (λ s. ok (str s)) (mount_reprint v h))
mount_stable (raw_mount v) y h e = elim (Bool-cases (is_nullish v)) [
  | inl n ↦ let e' : Path (Result Value) type_error (ok y) = rw n at e in cc
  | inr n ↦
      let e' : Path (Result Value) (ok (print_raw v)) (ok y) = rw n at e in
      let same : y ≡ str (volume_mount_to_string (short_form v h)) =
        cc (print_raw-short_form v h) in
      let parts : MountHasParts (short_form v h) = record {
        source_part = h.source_part;
        target_part = h.target_part;
      } in
      rw same (ap (λ s. ok (str s)) (mount_reprint (short_form v h) parts))
]

pub volumes_stable :
    (o : Option (List MountEntry)) (out : Option Value)
    → OptionAll MountIsStable o
    → volumes_write o ≡ ok out
    → volumes_write (parse_volumes (reread out)) ≡ ok out
unfolding volumes_write parse_volumes
volumes_stable none out h e = let same : out ≡ none = cc in rw same refl
volumes_stable (some []) out h e = let same : out ≡ none = cc in rw same refl
volumes_stable (some (p ∷ ps)) out h e =
    let (l, ls, shape, again) =
      lines_again print_mount parse_mount MountIsStable mount_stable p ps out h e in
    subst⁻¹ (λ t. volumes_write (parse_volumes (reread t)) ≡ ok t) shape (mounts_again l ls again)
