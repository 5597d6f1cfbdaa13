-- ===== src/Pages/Images.antt =====
-- pages/Images.tsx: the selection of images and their removal. `toLowerCase` is an argument, as is
-- whether the server carries a deletion out.
pub mod Selection
pub mod Presses
pub mod Removal
pub mod Build
use vps_pilot.Base.Filter.{keep}
use vps_pilot.Base.{
  ℕ, String, Bool, true, false, not, ◌&&◌, ◌||◌, Option, none, some, List, [], ◌∷◌, ◌==◌, map,
  is_nil, all, if◌then◌else◌, or_else,
}
use vps_pilot.Base.Text.{nonempty, join}
use vps_pilot.Base.Scan.{contains}
use vps_pilot.Base.Sets.{has, add_all, delete_all}
use vps_pilot.Base.Sets

pub record ImageSummary : Type 0 where
  pub id : String
  pub repo_tags : Option (List String)
  pub in_use : Bool

-- `img.repoTags?.join(" ") ?? ""`
abbrev tags_text : Option (List String) → String
tags_text none = ""
tags_text (some tags) = join " " tags

-- The test of `filtered`.
unfoldable pub is_shown : (String → String) → String → ImageSummary → Bool
unfolding contains join
is_shown lower search img =
    not (nonempty search)
    || contains (lower search) (lower (tags_text img.repo_tags))
    || contains search img.id

-- `filtered`
unfoldable pub filtered :
    (String → String) → String → Option (List ImageSummary) → List ImageSummary
unfolding is_shown
filtered lower search images = keep (is_shown lower search) (or_else images [])

-- `images?.find((i) => i.id === id)`
unfoldable pub find_image : String → List ImageSummary → Option ImageSummary
find_image id [] = none
find_image id (img ∷ imgs) = if img.id == id then some img else find_image id imgs

-- `img && !img.inUse`
abbrev pub is_free : Option ImageSummary → Bool
is_free none = false
is_free (some img) = not img.in_use

-- `deletableSelected`
unfoldable pub deletable_selected : Option (List ImageSummary) → List String → List String
unfolding find_image
deletable_selected images selected =
    keep (λ id. is_free (find_image id (or_else images []))) selected

-- `toggleSelect`
unfoldable pub toggle_select : String → Bool → List String → List String
unfolding Sets.toggle
toggle_select id in_use selected = if in_use then selected else Sets.toggle id selected

-- `filtered.filter((img) => !img.inUse)`
unfoldable pub deletable_filtered : List ImageSummary → List ImageSummary
deletable_filtered shown = keep (λ img. not img.in_use) shown

abbrev pub image_ids : List ImageSummary → List String
image_ids [] = []
image_ids (img ∷ imgs) = img.id ∷ image_ids imgs

-- `toggleAll`
unfoldable pub toggle_all : List ImageSummary → List String → List String
unfolding deletable_filtered add_all delete_all
toggle_all shown selected =
    let deletable = image_ids (deletable_filtered shown) in
    if all (λ id. has id selected) deletable
    then delete_all deletable selected
    else add_all deletable selected

-- `allFilteredDeletableSelected`
unfoldable pub all_filtered_deletable_selected : List ImageSummary → List String → Bool
unfolding deletable_filtered
all_filtered_deletable_selected shown selected =
    not (is_nil (deletable_filtered shown))
    && all (λ img. has img.id selected) (deletable_filtered shown)

-- What follows a deletion that is awaited: it goes on, or the error ends it.
abbrev or_stop {ℓ} : {S : Type ℓ} → Option S → S → (S → S × Bool) → S × Bool
or_stop none s go = (s, false)
or_stop (some s') s go = go s'

-- `removeMutation.mutationFn`: the deletions in turn, up to the first that fails, and whether all
-- were carried out. `S` is the server's state.
unfoldable pub remove_images {ℓ} :
    {S : Type ℓ} → (String → S → Option S) → List String → S → S × Bool
remove_images delete_image [] s = (s, true)
remove_images delete_image (id ∷ ids) s =
    or_stop (delete_image id s) s (λ s'. remove_images delete_image ids s')

-- `onSuccess` clears the selection; after an error it stays.
abbrev pub after_removal : Bool → List String → List String
after_removal true selected = []
after_removal false selected = selected
