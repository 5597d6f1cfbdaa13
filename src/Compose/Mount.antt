-- ===== src/Compose/Mount.antt =====
-- components/compose/types.ts: `VolumeMount`, `parseVolumeMount`, `volumeMountToString`.
pub mod Laws
use vps_pilot.Base.{
  String, ◌<>◌, Bool, true, false, Option, none, some, List, [], ◌∷◌, ◌==◌, if◌then◌else◌,
}
use vps_pilot.Base.Text.{nonempty, split}

pub record VolumeMount : Type 0 where
  pub source : String
  pub target : String
  pub read_only : Option Bool

-- `!!v.readOnly`
abbrev pub is_set : Option Bool → Bool
is_set none = false
is_set (some b) = b

-- The cases of `parts.length`. `split` makes at least one part.
abbrev of_parts : List String → VolumeMount
of_parts [] = record { source = ""; target = ""; read_only = none }
of_parts (t ∷ []) = record { source = ""; target = t; read_only = none }
of_parts (s ∷ t ∷ []) = record { source = s; target = t; read_only = none }
of_parts (s ∷ t ∷ mode ∷ rest) = record { source = s; target = t; read_only = some (mode == "ro") }

unfoldable pub parse_volume_mount : String → VolumeMount
unfolding split
parse_volume_mount s = of_parts (split b':' s)

unfoldable pub volume_mount_to_string : VolumeMount → String
volume_mount_to_string v =
    let suffix = if is_set v.read_only then ":ro" else "" in
    if nonempty v.source then v.source <> (":" <> (v.target <> suffix)) else v.target
