-- ===== src/Pages/Images/Presses.antt =====
-- pages/Images.tsx: the images that any presses of the checkboxes select.
use vps_pilot.Base.Filter.{keep-All, keep_everything, OnSome, nth-OnSome}
use vps_pilot.Base.{
  ℕ, String, ◌≡◌, refl, ap, ◌∙◌, Bool, true, false, not, ◌||◌, Option, none, some, List, [], ◌∷◌,
  ◌==◌, eq_iff, eq_refl, arith, all, All, Bool-cases, inl, inr,
}
use vps_pilot.Base.Lists.{get_elem?}
use vps_pilot.Base.Sets.{has, toggle-All, add_all-All, delete_all-All}
use vps_pilot.Pages.Images.{
  ImageSummary, is_shown, filtered, find_image, is_free, deletable_selected, toggle_select,
  deletable_filtered, image_ids, toggle_all,
}

-- No two images have an id.
abbrev pub DistinctIds : List ImageSummary → Type 0
DistinctIds [] = Unit
DistinctIds (img ∷ imgs) = (has img.id (image_ids imgs) ≡ false) × DistinctIds imgs

neither : {a b : Bool} → (a || b) ≡ false → (a ≡ false) × (b ≡ false)
neither {a} {b} h = (ground arith, ground arith)

swapped : (a b : String) → (b == a) ≡ false → (a == b) ≡ false
swapped a b h = ground (arith, eq_iff a b, eq_iff b a)

find-below :
    (img : ImageSummary) (imgs : List ImageSummary) (all_imgs : List ImageSummary)
    → has img.id (image_ids imgs) ≡ false
    → All (λ x. find_image x.id all_imgs ≡ some x) imgs
    → All (λ x. find_image x.id (img ∷ all_imgs) ≡ some x) imgs
unfolding find_image
find-below img [] all_imgs n h = tt
find-below img (x ∷ imgs) all_imgs n (h, hs) =
    let (other, others) = neither n in
    let apart : (img.id == x.id) ≡ false = swapped img.id x.id other in
    (rw apart h, find-below img imgs all_imgs others hs)

-- Each image is found by its id.
find_self :
    (imgs : List ImageSummary)
    → DistinctIds imgs
    → All (λ img. find_image img.id imgs ≡ some img) imgs
unfolding find_image
find_self [] d = tt
find_self (img ∷ imgs) (n, d) =
    (rw (eq_refl img.id) refl, find-below img imgs imgs n (find_self imgs d))

-- The id is that of an image that is not in use.
abbrev Deletable : List ImageSummary → String → Type 0
Deletable images id = is_free (find_image id images) ≡ true

free_image :
    (images : List ImageSummary) (img : ImageSummary)
    → find_image img.id images ≡ some img
    → img.in_use ≡ false
    → Deletable images img.id
free_image images img found unused = ap is_free found ∙ ap not unused

ids-Deletable :
    (images shown : List ImageSummary)
    → All (λ img. find_image img.id images ≡ some img) shown
    → All (Deletable images) (image_ids (deletable_filtered shown))
unfolding deletable_filtered
ids-Deletable images [] h = tt
ids-Deletable images (img ∷ imgs) (h, hs) = elim (Bool-cases img.in_use) [
  | inl t ↦ rw t (ids-Deletable images imgs hs)
  | inr f ↦ rw f (free_image images img h f, ids-Deletable images imgs hs)
]

-- What a person does on the page: a search, a press of a row of the list, or of the head's checkbox.
pub data Press : Type 0 where
  row : String → ℕ → Press
  head : String → Press

abbrev press_row : Option ImageSummary → List String → List String
press_row none selected = selected
press_row (some img) selected = toggle_select img.id img.in_use selected

module _ (lower : String → String) (images : List ImageSummary) where
  -- One press under the search that is entered at the time.
  unfoldable pub press : Press → List String → List String
  unfolding toggle_select toggle_all filtered
  press (row search n) selected =
      press_row (get_elem? (filtered lower search (some images)) n) selected
  press (head search) selected = toggle_all (filtered lower search (some images)) selected

  unfoldable pub press_all : List Press → List String → List String
  unfolding press
  press_all [] selected = selected
  press_all (p ∷ ps) selected = press_all ps (press p selected)

  abbrev Found : ImageSummary → Type 0
  Found img = find_image img.id images ≡ some img

  row-Deletable :
      (o : Option ImageSummary) (selected : List String)
      → OnSome Found o
      → All (Deletable images) selected
      → All (Deletable images) (press_row o selected)
  unfolding toggle_select
  row-Deletable none selected k h = h
  row-Deletable (some img) selected k h = elim (Bool-cases img.in_use) [
    | inl t ↦ rw t h
    | inr f ↦ rw f (toggle-All (Deletable images) img.id selected (free_image images img k f) h)
  ]

  All-Deletable :
      (shown : List ImageSummary) (selected : List String)
      → All Found shown
      → All (Deletable images) selected
      → All (Deletable images) (toggle_all shown selected)
  unfolding toggle_all
  All-Deletable shown selected k h =
      let ids = image_ids (deletable_filtered shown) in
      elim (Bool-cases (all (λ id. has id selected) ids)) [
        | inl t ↦ rw t (delete_all-All (Deletable images) ids selected h)
        | inr f ↦
            rw f (add_all-All (Deletable images) ids selected (ids-Deletable images shown k) h)
      ]

  press-Deletable :
      (p : Press) (selected : List String)
      → DistinctIds images
      → All (Deletable images) selected
      → All (Deletable images) (press p selected)
  unfolding press filtered
  press-Deletable (row search n) selected d h =
      let shown = filtered lower search (some images) in
      row-Deletable (get_elem? shown n) selected
        (nth-OnSome Found shown n
          (keep-All Found (is_shown lower search) images (find_self images d)))
        h
  press-Deletable (head search) selected d h =
      All-Deletable (filtered lower search (some images)) selected
        (keep-All Found (is_shown lower search) images (find_self images d)) h

  press_all-Deletable :
      (ps : List Press) (selected : List String)
      → DistinctIds images
      → All (Deletable images) selected
      → All (Deletable images) (press_all ps selected)
  unfolding press_all
  press_all-Deletable [] selected d h = h
  press_all-Deletable (p ∷ ps) selected d h =
      press_all-Deletable ps (press p selected) d (press-Deletable p selected d h)

  -- For a list of images with distinct ids, whatever rows and head checkboxes are pressed under
  -- whatever searches, every selected image can be deleted.
  pub selected_can_go :
      (ps : List Press)
      → DistinctIds images
      → deletable_selected (some images) (press_all ps []) ≡ press_all ps []
  unfolding deletable_selected
  selected_can_go ps d =
      keep_everything (λ id. is_free (find_image id images)) (press_all ps [])
        (press_all-Deletable ps [] d tt)
