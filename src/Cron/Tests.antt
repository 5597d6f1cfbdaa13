-- ===== src/Cron/Tests.antt =====
-- A crontab of two entries, and the theorems of this part at it.
use vps_pilot.Base.{◌≡◌, refl, true, false, none, some, [], ◌∷◌, map, ◌==◌, if◌then◌else◌, All}
use vps_pilot.Cron.Entry.{CronEntry, current_expr, comment_line}
use vps_pilot.Cron.Dialog.{schedules, blank_job, open_dialog, shows_fields}
use vps_pilot.Cron.Dialog.Laws.{Reopens, presets_reopen}
use vps_pilot.Cron.Page.{CronPage, job_entries, toggle_entry, delete_entry, save_entry, toggled}
use vps_pilot.Cron.Page.Laws.{find, changed, page_edits}

abbrev nightly : CronEntry
nightly = record blank_job {
  id = "1";
  minute = some "30";
  hour = some "2";
  command = some "backup";
}

abbrev note : CronEntry
note = record blank_job { id = "2"; entry_type = comment_line; raw = some "# jobs" }

abbrev crontab : CronPage
crontab = record { entries = note ∷ nightly ∷ []; dirty = false }

dialog_tests :
    (current_expr nightly ≡ "30 2 * * *")
    × ((open_dialog (some nightly)).preset ≡ "custom")
    × ((open_dialog none).preset ≡ "* * * * *")
    × (shows_fields (open_dialog (some nightly)) ≡ true)
    × (job_entries crontab.entries ≡ nightly ∷ [])
unfolding current_expr open_dialog shows_fields job_entries
dialog_tests = (refl, refl, refl, refl, refl)

presets_reopen_example : All (Reopens (open_dialog (some nightly))) schedules
presets_reopen_example = presets_reopen (open_dialog (some nightly))

page_edits_example :
    (find "1" (toggle_entry nightly.id crontab).entries ≡ (
      if nightly.id == "1"
      then changed toggled (find "1" crontab.entries)
      else find "1" crontab.entries))
    × (find "1" (delete_entry nightly.id crontab).entries
        ≡ (if nightly.id == "1" then none else find "1" crontab.entries))
    × (find "1" (save_entry "0" (some nightly) blank_job crontab).entries ≡ (
        if nightly.id == "1"
        then changed (λ e. record blank_job { id = nightly.id }) (find "1" crontab.entries)
        else find "1" crontab.entries))
    × (map (λ e. e.id) (toggle_entry nightly.id crontab).entries ≡ map (λ e. e.id) crontab.entries)
    × (map (λ e. e.id) (save_entry "0" (some nightly) blank_job crontab).entries
        ≡ map (λ e. e.id) crontab.entries)
page_edits_example = page_edits "0" "1" nightly blank_job crontab
