-- ===== src/Builder/Used/Names.antt =====
-- components/compose/ComposeBuilder.tsx: which names `getUsedVolumes` collects.
use vps_pilot.Base.{
  String, ◌≡◌, refl, ap, ◌∙◌, Bool, true, false, ◌&&◌, ◌||◌, Option, none, some, List, [], ◌∷◌,
  ◌==◌, arith, Bool-cases, inl, inr,
}
use vps_pilot.Base.Dict.{Dict}
use vps_pilot.Js.{
  Value, undefined, null, bool, num, str, arr, obj, is_nullish, member, ok, type_error,
}
use vps_pilot.Js.Laws.{>>=-eq-ok}
use vps_pilot.Compose.Service.{ComposeService, MountEntry, mount, raw_mount}
use vps_pilot.Base.Sets.{has, has-add}
use vps_pilot.Builder.Used.{
  is_named_volume, add_source, add_mount, mounts_onto, service_onto, used_onto, get_used_volumes,
}

-- The source of a mount is the name k of a volume.
abbrev source_is : String → Value → Bool
source_is k (str s) = is_named_volume s && s == k
source_is k _ = false

abbrev mount_uses : String → MountEntry → Bool
mount_uses k (mount m) = source_is k (str m.source)
mount_uses k (raw_mount v) = source_is k (member "source" v)

abbrev any_mount : String → List MountEntry → Bool
any_mount k [] = false
any_mount k (m ∷ ms) = mount_uses k m || any_mount k ms

abbrev option_uses : String → Option (List MountEntry) → Bool
option_uses k none = false
option_uses k (some ms) = any_mount k ms

-- Some service mounts the volume k.
abbrev pub uses : String → Dict ComposeService → Bool
uses k [] = false
uses k ((name, svc) ∷ svcs) = option_uses k svc.volumes || uses k svcs

has-add_source :
    (k : String) (v : Value) (used : List String) {used' : List String}
    → add_source v used ≡ ok used'
    → has k used' ≡ (source_is k v || has k used)
unfolding add_source
has-add_source k undefined used h = cc
has-add_source k null used h = cc
has-add_source k (bool b) used h = ground arith
has-add_source k (num n) used h = ground arith
has-add_source k (arr vs) used h = cc
has-add_source k (obj fs) used h = cc
has-add_source k (str s) used h = elim (Bool-cases (is_named_volume s)) [
  | inl t ↦ ground (arith, has-add s k used)
  | inr f ↦ ground arith
]

has-add_mount :
    (k : String) (m : MountEntry) (used : List String) {used' : List String}
    → add_mount m used ≡ ok used'
    → has k used' ≡ (mount_uses k m || has k used)
unfolding add_mount
has-add_mount k (mount m) used h = has-add_source k (str m.source) used h
has-add_mount k (raw_mount v) used {used'} h = elim (Bool-cases (is_nullish v)) [
  | inl t ↦ let bad : type_error ≡ ok used' = rw t at h in cc
  | inr f ↦ has-add_source k (member "source" v) used (rw f at h)
]

swap_or : (a b c : Bool) → (b || (a || c)) ≡ ((a || b) || c)
swap_or true true c = refl
swap_or true false c = refl
swap_or false b c = refl

has-mounts_onto :
    (k : String) (ms : List MountEntry) (used : List String) {used' : List String}
    → mounts_onto used ms ≡ ok used'
    → has k used' ≡ (any_mount k ms || has k used)
unfolding mounts_onto
has-mounts_onto k [] used h = cc
has-mounts_onto k (m ∷ ms) used h =
    let (mid, e, rest) = >>=-eq-ok (add_mount m used) (λ u. mounts_onto u ms) h in
    has-mounts_onto k ms mid rest
    ∙ ap (λ b. any_mount k ms || b) (has-add_mount k m used e)
    ∙ swap_or (mount_uses k m) (any_mount k ms) (has k used)

has-service_onto :
    (k : String) (o : Option (List MountEntry)) (used : List String) {used' : List String}
    → service_onto used o ≡ ok used'
    → has k used' ≡ (option_uses k o || has k used)
has-service_onto k none used h = cc
has-service_onto k (some ms) used h = has-mounts_onto k ms used h

has-used_onto :
    (k : String) (svcs : Dict ComposeService) (used : List String) {used' : List String}
    → used_onto used svcs ≡ ok used'
    → has k used' ≡ (uses k svcs || has k used)
unfolding used_onto
has-used_onto k [] used h = cc
has-used_onto k ((name, svc) ∷ svcs) used h =
    let (mid, e, rest) = >>=-eq-ok (service_onto used svc.volumes) (λ u. used_onto u svcs) h in
    has-used_onto k svcs mid rest
    ∙ ap (λ b. uses k svcs || b) (has-service_onto k svc.volumes used e)
    ∙ swap_or (option_uses k svc.volumes) (uses k svcs) (has k used)

or_false : (b : Bool) → (b || false) ≡ b
or_false true = refl
or_false false = refl

-- What is collected is what some service mounts.
pub has-get_used_volumes :
    (k : String) (svcs : Dict ComposeService) {used : List String}
    → get_used_volumes svcs ≡ ok used
    → has k used ≡ uses k svcs
unfolding get_used_volumes
has-get_used_volumes k svcs h = has-used_onto k svcs [] h ∙ or_false (uses k svcs)
