-- ===== src/Pages/Images/Removal.antt =====
-- pages/Images.tsx: what a removal asks of the server.
use mathlib.Core.Path.{subst}
use vps_pilot.Base.{
  String, ◌≡◌, refl, ap, false, Option, none, some, List, [], ◌∷◌, Option-cases, inl, inr,
}
use vps_pilot.Pages.Images.{remove_images, after_removal}

module _ {ℓ} {S : Type ℓ} (delete_image : String → S → Option S) (Gone : String → S → Type 0)
    (deletion-Gone : (id : String) (s s' : S) → delete_image id s ≡ some s' → Gone id s')
    (others-Gone : (id j : String) (s s' : S) → Gone id s → delete_image j s ≡ some s' → Gone id s')
    (Gone-refused : (id : String) (s : S) → Gone id s → delete_image id s ≡ none) where
  removal-Gone :
      (id : String) (ids : List String) (s : S)
      → Gone id s
      → Gone id (remove_images delete_image ids s).0
  unfolding remove_images
  removal-Gone id [] s g = g
  removal-Gone id (j ∷ ids) s g = elim (Option-cases (delete_image j s)) [
    | inl n ↦ rw n g
    | inr (s', e) ↦ rw e (removal-Gone id ids s' (others-Gone id j s s' g e))
  ]

  gone_now :
      (id : String) (ids : List String) (s s1 s2 : S)
      → delete_image id s ≡ some s1
      → remove_images delete_image (id ∷ ids) s ≡ (s2, false)
      → Gone id s2
  unfolding remove_images
  gone_now id ids s s1 s2 e h =
      let stopped : (remove_images delete_image ids s1).0 ≡ s2 = ap (λ r. r.0) (rw e at h) in
      subst (Gone id) stopped (removal-Gone id ids s1 (deletion-Gone id s s1 e))

  -- When a removal of images fails after its first image is gone, the selection stays and the same
  -- removal fails again at once and leaves the server as it is, if the server refuses to delete
  -- what is gone, and what is gone stays so.
  pub removal_again :
      (id : String) (ids : List String) (s s1 s2 : S)
      → delete_image id s ≡ some s1
      → remove_images delete_image (id ∷ ids) s ≡ (s2, false)
      → (after_removal false (id ∷ ids) ≡ id ∷ ids)
        × (remove_images delete_image (after_removal false (id ∷ ids)) s2 ≡ (s2, false))
  unfolding remove_images
  removal_again id ids s s1 s2 e h =
      (refl, rw (Gone-refused id s2 (gone_now id ids s s1 s2 e h)) refl)
