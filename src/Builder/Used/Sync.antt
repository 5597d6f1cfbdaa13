-- ===== src/Builder/Used/Sync.antt =====
-- components/compose/ComposeBuilder.tsx: what `syncTopLevelVolumes` makes of a file.
use vps_pilot.Base.{
  String, ◌≡◌, refl, sym, ap, ◌∙◌, some, List, [], ◌∷◌, or_else, if◌then◌else◌, arith,
}
use vps_pilot.Base.Dict.{Dict, lookup, NodupKeys}
use vps_pilot.Js.{Value, obj, end, ok, entries}
use vps_pilot.Js.Laws.{>>=-eq-ok, fields-of_dict}
use vps_pilot.Compose.Service.{ComposeFile}
use vps_pilot.Builder.Used.{
  get_used_volumes, sync_volumes, sync_top_level_volumes, spread, or_undefined,
}
use vps_pilot.Builder.Used.Laws.{lookup-sync_volumes, if_content}
use vps_pilot.Builder.Used.Names.{uses, has-get_used_volumes}

spread-or_undefined : (d : Dict Value) → spread (or_undefined d) ≡ d
unfolding entries
spread-or_undefined [] = refl
spread-or_undefined ((k, v) ∷ d) = fields-of_dict ((k, v) ∷ d)

-- The synchronised file.
abbrev synced : List String → ComposeFile → ComposeFile
synced used cf = record cf { volumes = or_undefined (sync_volumes used (spread cf.volumes)) }

module _ (cf : ComposeFile) {cf' : ComposeFile} (h : sync_top_level_volumes cf ≡ ok cf')
    (u : NodupKeys (spread cf.volumes)) where
  -- When the synchronisation of a file whose volumes have distinct names does not throw, it keeps
  -- the services, and a volume that a service mounts by name keeps its configuration or gets the
  -- empty one, while any other stays exactly if its configuration says something.
  pub sync_each_volume :
      (k : String)
      → (cf'.services ≡ cf.services)
        × (lookup k (spread cf'.volumes) ≡ (
            if uses k cf.services
            then some (or_else (lookup k (spread cf.volumes)) (obj end))
            else if_content (lookup k (spread cf.volumes))))
  unfolding sync_top_level_volumes
  sync_each_volume k =
      let (used, e, made) =
        >>=-eq-ok (get_used_volumes cf.services) (λ used. ok (synced used cf)) h in
      let same : synced used cf ≡ cf' = ground arith in
      (
        sym (ap (λ f. f.services) same),
        ap (λ f. lookup k (spread f.volumes)) (sym same)
            ∙ ap (lookup k) (spread-or_undefined (sync_volumes used (spread cf.volumes)))
            ∙ lookup-sync_volumes used k (spread cf.volumes) u
            ∙ ap
                (λ b.
                  if b
                  then some (or_else (lookup k (spread cf.volumes)) (obj end))
                  else if_content (lookup k (spread cf.volumes)))
                (has-get_used_volumes k cf.services e),
      )

-- The services stay.
pub sync-services :
    (cf : ComposeFile) {cf' : ComposeFile}
    → sync_top_level_volumes cf ≡ ok cf'
    → cf'.services ≡ cf.services
unfolding sync_top_level_volumes
sync-services cf {cf'} h =
    let (used, e, made) =
      >>=-eq-ok (get_used_volumes cf.services) (λ used. ok (synced used cf)) h in
    let same : synced used cf ≡ cf' = ground arith in sym (ap (λ f. f.services) same)
