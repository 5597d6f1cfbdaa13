-- ===== src/Pages/Images/Selection.antt =====
-- pages/Images.tsx: what the selection of images holds after the presses of its checkboxes.
use vps_pilot.Base.{
  String, ◌≡◌, refl, sym, ap, ◌∙◌, Bool, true, false, not, ◌&&◌, ◌||◌, List, [], ◌∷◌, eq_refl,
  if◌then◌else◌, is_nil, all, Bool-cases, inl, inr,
}
use vps_pilot.Base.Sets.{has, has-add_all, has-delete_all, all-members}
use vps_pilot.Pages.Images.{
  ImageSummary, deletable_filtered, image_ids, toggle_all, all_filtered_deletable_selected,
}

-- The image is shown and not in use: its checkbox can be pressed.
abbrev pub can_press : String → List ImageSummary → Bool
can_press id shown = has id (image_ids (deletable_filtered shown))

-- The checkbox at the head takes or gives the images that can be pressed, and leaves the others.
toggle_all-has :
    (id : String) (shown : List ImageSummary) (selected : List String)
    → has id (toggle_all shown selected) ≡ (
        if can_press id shown
        then not (all (λ i. has i selected) (image_ids (deletable_filtered shown)))
        else has id selected)
unfolding toggle_all
toggle_all-has id shown selected =
    let deletable = image_ids (deletable_filtered shown) in
    elim (Bool-cases (all (λ i. has i selected) deletable)) [
      | inl t ↦ rw t (has-delete_all deletable id selected)
      | inr f ↦
          rw f (has-add_all deletable id selected ∙ or_if (has id deletable) (has id selected))
    ]
  where
    or_if : (a b : Bool) → (a || b) ≡ (if a then true else b)
    or_if true b = refl
    or_if false b = refl

all-ids :
    (selected : List String) (imgs : List ImageSummary)
    → all (λ img. has img.id selected) imgs ≡ all (λ i. has i selected) (image_ids imgs)
all-ids selected [] = refl
all-ids selected (img ∷ imgs) = ap (λ b. has img.id selected && b) (all-ids selected imgs)

all_none :
    (p : String → Bool) (imgs : List ImageSummary)
    → is_nil imgs ≡ false
    → ((i : String) → has i (image_ids imgs) ≡ true → p i ≡ false)
    → all p (image_ids imgs) ≡ false
all_none p [] h k = cc
all_none p (img ∷ imgs) h k = rw (k img.id (rw (eq_refl img.id) refl)) refl

after_press :
    (shown : List ImageSummary) (selected : List String) (b : Bool)
    → is_nil (deletable_filtered shown) ≡ false
    → ((i : String) → can_press i shown ≡ true → has i (toggle_all shown selected) ≡ b)
    → all (λ i. has i (toggle_all shown selected)) (image_ids (deletable_filtered shown)) ≡ b
after_press shown selected true h k =
    all-members (λ i. has i (toggle_all shown selected)) (image_ids (deletable_filtered shown)) k
after_press shown selected false h k =
    all_none (λ i. has i (toggle_all shown selected)) (deletable_filtered shown) h k

-- Where an image is shown that can be pressed, a press of the checkbox at the head of the images
-- flips it: an image that can be pressed is selected afterwards exactly when the checkbox was not
-- set, and every other image is selected as before.
pub toggle_all-flips :
    (id : String) (shown : List ImageSummary) (selected : List String)
    → is_nil (deletable_filtered shown) ≡ false
    → (all_filtered_deletable_selected shown (toggle_all shown selected)
        ≡ not (all_filtered_deletable_selected shown selected))
      × (has id (toggle_all shown selected) ≡ (
          if can_press id shown
          then not (all_filtered_deletable_selected shown selected)
          else has id selected))
unfolding all_filtered_deletable_selected
toggle_all-flips id shown selected h =
    let same = all-ids selected (deletable_filtered shown) in
    let flipped = ap not (sym same) in
    rw h (
      all-ids (toggle_all shown selected) (deletable_filtered shown)
          ∙ after_press shown selected
              (not (all (λ i. has i selected) (image_ids (deletable_filtered shown)))) h
              (λ i k. toggle_all-has i shown selected ∙ rw k refl)
          ∙ flipped,
      toggle_all-has id shown selected
          ∙ ap (λ b. if can_press id shown then b else has id selected) flipped,
    )
