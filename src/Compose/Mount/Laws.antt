-- ===== src/Compose/Mount/Laws.antt =====
-- Printing a mount and reading it back.

use text.Mathlib.TextLemmas.{append-nil}
use vps_pilot.Base.{
  String, ◌<>◌, ◌≡◌, refl, Bool, true, false, Option, none, some, List, [], ◌∷◌, if◌then◌else◌, ◌∙◌,
  ap, All,
}
use vps_pilot.Base.Text.{nonempty, split, Free, split-Free, split-of_Free, split-append_sep}
use vps_pilot.Compose.Mount.{
  VolumeMount, is_set, of_parts, parse_volume_mount, volume_mount_to_string,
}

pub record HasParts (v : VolumeMount) : Type 0 where
  pub source_part : Free b':' v.source
  pub target_part : Free b':' v.target

-- The mode is kept only behind a source, and only if it is read-only.
abbrev normal_mode : Option Bool → Option Bool
normal_mode o = if is_set o then some true else none

pub normalize : VolumeMount → VolumeMount
normalize v = record {
  source = v.source;
  target = v.target;
  read_only = if nonempty v.source then normal_mode v.read_only else none;
}

parse_mount-print_fields :
    (s t : String) (o : Option Bool)
    → Free b':' s
    → Free b':' t
    → let v : VolumeMount = record { source = s; target = t; read_only = o } in
      parse_volume_mount (volume_mount_to_string v) ≡ normalize v
unfolding parse_volume_mount volume_mount_to_string normalize
parse_mount-print_fields String.[] t o hs ht = rw (split-of_Free b':' t ht) refl
parse_mount-print_fields (String.◌∷◌ c s) t none hs ht =
    rw (append-nil, split-append_sep ":" (String.◌∷◌ c s) t hs, split-of_Free b':' t ht) refl
parse_mount-print_fields (String.◌∷◌ c s) t (some false) hs ht =
    rw (append-nil, split-append_sep ":" (String.◌∷◌ c s) t hs, split-of_Free b':' t ht) refl
parse_mount-print_fields (String.◌∷◌ c s) t (some true) hs ht =
    rw (split-append_sep ":" (String.◌∷◌ c s) (t <> ":ro") hs, split-append_sep ":" t "ro" ht) refl

-- A mount whose source and target hold no colon is read back from its text as its normal form.
parse_mount-print :
    (v : VolumeMount) → HasParts v → parse_volume_mount (volume_mount_to_string v) ≡ normalize v
parse_mount-print v h =
    parse_mount-print_fields v.source v.target v.read_only h.source_part h.target_part

print-normalize :
    (s t : String) (o : Option Bool)
    → let v : VolumeMount = record { source = s; target = t; read_only = o } in
      volume_mount_to_string (normalize v) ≡ volume_mount_to_string v
unfolding volume_mount_to_string normalize
print-normalize String.[] t o = refl
print-normalize (String.◌∷◌ c s) t none = refl
print-normalize (String.◌∷◌ c s) t (some false) = refl
print-normalize (String.◌∷◌ c s) t (some true) = refl

of_parts-HasParts : (ps : List String) → All (Free b':') ps → HasParts (of_parts ps)
of_parts-HasParts [] h = record { source_part = tt; target_part = tt }
of_parts-HasParts (t ∷ []) h = record { source_part = tt; target_part = h.0 }
of_parts-HasParts (s ∷ t ∷ []) h = record { source_part = h.0; target_part = h.1.0 }
of_parts-HasParts (s ∷ t ∷ m ∷ rest) h = record { source_part = h.0; target_part = h.1.0 }

pub parse-HasParts : (s : String) → HasParts (parse_volume_mount s)
unfolding parse_volume_mount
parse-HasParts s = of_parts-HasParts (split b':' s) (split-Free b':' s)

-- Printing what was read of a printed mount gives the same text.
pub reprint :
    (v : VolumeMount)
    → HasParts v
    → volume_mount_to_string (parse_volume_mount (volume_mount_to_string v))
      ≡ volume_mount_to_string v
reprint v h =
    ap volume_mount_to_string (parse_mount-print v h)
    ∙ print-normalize v.source v.target v.read_only

-- Whatever text a mount is read from, printing it a second time changes nothing.
print_mount_stable :
    (s : String)
    → volume_mount_to_string (parse_volume_mount (volume_mount_to_string (parse_volume_mount s)))
      ≡ volume_mount_to_string (parse_volume_mount s)
print_mount_stable s = reprint (parse_volume_mount s) (parse-HasParts s)
