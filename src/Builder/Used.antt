-- ===== src/Builder/Used.antt =====
-- components/compose/ComposeBuilder.tsx: `isNamedVolume`, `getUsedVolumes`, `syncTopLevelVolumes`.
-- Names that every JavaScript object has ("constructor" and the like) are taken for absent by `in`.
pub mod Laws
pub mod Again
pub mod Names
pub mod Sync
use vps_pilot.Base.{
  ℕ, String, Bool, true, false, not, ◌&&◌, ◌||◌, Option, none, some, List, [], ◌∷◌, ◌==◌,
  if◌then◌else◌, eqb, is_nil,
}
use vps_pilot.Base.Text.{nonempty, begins_with}
use vps_pilot.Base.Sets.{has, add}
use vps_pilot.Base.Dict.{Dict, insert, erase, has_key}
use vps_pilot.Js.{
  Value, undefined, obj, str, end, of_dict, truthy, is_nullish, has_keys, coalesce, member, entries,
  Result, ok, type_error, ◌>>=◌,
}
use vps_pilot.Compose.Service.{ComposeFile, ComposeService, MountEntry, mount, raw_mount}

-- `!!source && !source.startsWith("/") && !source.startsWith(".")`
unfoldable pub is_named_volume : String → Bool
unfolding begins_with
is_named_volume s = nonempty s && (not (begins_with b'/' s) && not (begins_with b'.' s))

-- `isNamedVolume(source)`, and the addition: a truthy source that is no text has no `startsWith`.
unfoldable pub add_source : Value → List String → Result (List String)
unfolding is_named_volume add
add_source (str s) used = ok (if is_named_volume s then add s used else used)
add_source v used = if truthy v then type_error else ok used

-- One mount: `vol.source` of null throws.
unfoldable pub add_mount : MountEntry → List String → Result (List String)
unfolding add_source member
add_mount (mount m) used = add_source (str m.source) used
add_mount (raw_mount v) used =
    if is_nullish v then type_error else add_source (member "source" v) used

unfoldable pub mounts_onto : List String → List MountEntry → Result (List String)
unfolding add_mount
mounts_onto used [] = ok used
mounts_onto used (m ∷ ms) = add_mount m used >>= λ used'. mounts_onto used' ms

abbrev pub service_onto : List String → Option (List MountEntry) → Result (List String)
service_onto used none = ok used
service_onto used (some ms) = mounts_onto used ms

unfoldable pub used_onto : List String → Dict ComposeService → Result (List String)
unfolding mounts_onto
used_onto used [] = ok used
used_onto used ((name, svc) ∷ svcs) =
    service_onto used svc.volumes >>= λ used'. used_onto used' svcs

unfoldable pub get_used_volumes : Dict ComposeService → Result (List String)
unfolding used_onto
get_used_volumes svcs = used_onto [] svcs

-- The first loop: what is used and not declared is declared.
unfoldable pub declare_all : List String → Dict Value → Dict Value
unfolding has_key insert
declare_all [] next = next
declare_all (vol ∷ vols) next =
    declare_all vols (if has_key vol next then next else insert vol (obj end) next)

-- `!used.has(vol) && (!config || Object.keys(config).length === 0)`
abbrev pub is_unused : List String → String → Value → Bool
is_unused used vol config = not (has vol used) && (not (truthy config) || not (has_keys config))

-- The second loop runs over the entries as they were before it, and deletes from `next`.
unfoldable pub delete_unused : List String → Dict Value → Dict Value → Dict Value
unfolding erase
delete_unused used [] next = next
delete_unused used ((vol, config) ∷ es) next =
    delete_unused used es (if is_unused used vol config then erase vol next else next)

-- `{ ...(v ?? {}) }`
abbrev pub spread : Value → Dict Value
spread v = entries (coalesce v (obj end))

-- `Object.keys(next).length ? next : undefined`
abbrev pub or_undefined : Dict Value → Value
or_undefined next = if is_nil next then undefined else obj (of_dict next)

unfoldable pub sync_volumes : List String → Dict Value → Dict Value
unfolding declare_all delete_unused
sync_volumes used volumes = let next = declare_all used volumes in delete_unused used next next

unfoldable pub sync_top_level_volumes : ComposeFile → Result ComposeFile
unfolding get_used_volumes sync_volumes entries
sync_top_level_volumes cf = do
  used ← get_used_volumes cf.services
  ok (record cf { volumes = or_undefined (sync_volumes used (spread cf.volumes)) })
