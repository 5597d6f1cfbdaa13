-- ===== src/Pages/Tests.antt =====
-- Runs of the pages at concrete inputs.
mod Panels
use vps_pilot.Base.{
  ℕ, String, ◌≡◌, refl, sym, ap, ◌∙◌, Bool, true, false, not, Option, none, some, List, [], ◌∷◌,
  if◌then◌else◌, All, inl, inr,
}
use vps_pilot.Base.Text.{Free-of_test}
use vps_pilot.Base.Sets.{has}
use vps_pilot.Base.Dict.{lookup, insert}
use vps_pilot.Pages.Images.{
  ImageSummary, toggle_all, deletable_selected, all_filtered_deletable_selected, remove_images,
  after_removal, deletable_filtered,
}
use vps_pilot.Pages.Images.Selection.{toggle_all-flips, can_press}
use vps_pilot.Pages.Images.Presses.{DistinctIds, Press, row, head, press_all, selected_can_go}
use vps_pilot.Pages.Images.Removal.{removal_again}
use vps_pilot.Pages.Images.Build.{
  BuildArg, BuildStep, started, socket_error, build_steps, args_onto,
}
use vps_pilot.Pages.Images.Build.Laws.{ErrorEnds, last_value}
use vps_pilot.Pages.Files.{EditorState, FilesPage, type_text, press_save, save_done, editor_dirty}
use vps_pilot.Pages.Files
use vps_pilot.Pages.Files.Laws.{Steps, typed_while_saving}
use vps_pilot.Pages.Files.Laws
use vps_pilot.Pages.Paths.{breadcrumbs}
use vps_pilot.Pages.Paths.Laws.{
  Click, enter, name_at, clicks, clicks_stack, path_of, EntersName, clicks-refine,
}

abbrev same : String → String
same s = s

abbrev used_image : ImageSummary
used_image = record { id = "a"; repo_tags = some ("web" ∷ []); in_use = true }

abbrev free_image : ImageSummary
free_image = record { id = "b"; repo_tags = none; in_use = false }

abbrev two_images : List ImageSummary
two_images = used_image ∷ free_image ∷ []

toggle_all-flips_example :
    (all_filtered_deletable_selected two_images (toggle_all two_images [])
      ≡ not (all_filtered_deletable_selected two_images []))
    × (has "b" (toggle_all two_images []) ≡ (
        if can_press "b" two_images
        then not (all_filtered_deletable_selected two_images [])
        else has "b" []))
unfolding deletable_filtered
toggle_all-flips_example = toggle_all-flips "b" two_images [] refl

abbrev some_presses : List Press
some_presses = row "" 1 ∷ row "" 0 ∷ head "" ∷ []

selected_can_go_example :
    deletable_selected (some two_images) (press_all same two_images some_presses [])
    ≡ press_all same two_images some_presses []
selected_can_go_example = selected_can_go same two_images some_presses (refl, (refl, tt))

-- A server of one image that can be deleted once.
abbrev delete_once : String → Bool → Option Bool
delete_once id there = if there then some false else none

removal_again_example :
    (after_removal false ("a" ∷ "b" ∷ []) ≡ "a" ∷ "b" ∷ [])
    × (remove_images delete_once (after_removal false ("a" ∷ "b" ∷ [])) false ≡ (false, false))
unfolding remove_images
removal_again_example =
    removal_again delete_once (λ id there. there ≡ false) (λ id s s' e. deleted s s' e)
      (λ id j s s' g e. deleted s s' e) (λ id s g. rw g refl) "a" ("b" ∷ []) true false false refl
      refl
  where
    deleted : (s s' : Bool) → delete_once "a" s ≡ some s' → s' ≡ false
    deleted true s' e = cc
    deleted false s' e = absurd cc

abbrev motd : EditorState
motd = record { path = "/etc/motd"; name = "motd"; original_content = "hi"; content = "hi" }

abbrev edited : EditorState
edited = record { path = "/etc/motd"; name = "motd"; original_content = "hi"; content = "ho" }

abbrev before_save : FilesPage
before_save = record { editor = some edited; saving = none; deleting = none; stored = [] }

typed_while_saving_example :
    (editor_dirty (save_done (type_text "hoho" (press_save before_save))).editor ≡ false)
    × (lookup "/etc/motd" (save_done (type_text "hoho" (press_save before_save))).stored
        ≡ some "ho")
typed_while_saving_example = typed_while_saving edited "hoho" none [] refl

abbrev some_clicks : List Click
some_clicks = enter "var" ∷ enter "log" ∷ name_at 0 ∷ []

clicks-refine_example :
    (clicks some_clicks "/" ≡ path_of (clicks_stack some_clicks []))
    × (breadcrumbs (clicks some_clicks "/") ≡ clicks_stack some_clicks [])
clicks-refine_example =
    clicks-refine some_clicks
      ((Free-of_test b'/' "var" refl, refl), ((Free-of_test b'/' "log" refl, refl), (tt, tt)))
