-- ===== src/Cron/Dialog/Laws.antt =====
-- What a preset makes of the schedule.
use vps_pilot.Base.{String, ◌≡◌, refl, false, some, All}
use vps_pilot.Cron.Entry.{current_expr}
use vps_pilot.Cron.Dialog.{
  CronDialog, schedules, open_dialog, apply_preset, preset_mode, TimeField, minute_field,
  hour_field, day_field, month_field, weekday_field, set_field, shows_fields,
}

-- The schedule is the preset's, and a dialog that is opened with the entry shows the preset.
abbrev pub Reopens : CronDialog → String → Type 0
Reopens d v =
    (current_expr (apply_preset v d).entry ≡ v)
    × ((open_dialog (some (apply_preset v d).entry)).preset ≡ v)
    × ((open_dialog (some (apply_preset v d).entry)).sched_mode ≡ preset_mode)

-- Every preset but "custom" makes the schedule that it names of any entry, and is found again when
-- the dialog is opened with that entry.
pub presets_reopen : (d : CronDialog) → All (Reopens d) schedules
unfolding current_expr apply_preset open_dialog
presets_reopen d = (
  (refl, refl, refl),
  (
    (refl, refl, refl),
    (
      (refl, refl, refl),
      (
        (refl, refl, refl),
        ((refl, refl, refl), ((refl, refl, refl), ((refl, refl, refl), ((refl, refl, refl), tt)))),
      ),
    ),
  ),
)

-- Once "On reboot" is chosen, "Custom" shows no fields, and whatever they would set, the schedule
-- stays "@reboot".
custom_after_reboot :
    (d : CronDialog) (f : TimeField) (v : String)
    → (shows_fields (apply_preset "custom" (apply_preset "@reboot" d)) ≡ false)
      × (current_expr (set_field f v (apply_preset "custom" (apply_preset "@reboot" d))).entry
          ≡ "@reboot")
unfolding shows_fields apply_preset set_field current_expr
custom_after_reboot d minute_field v = (refl, refl)
custom_after_reboot d hour_field v = (refl, refl)
custom_after_reboot d day_field v = (refl, refl)
custom_after_reboot d month_field v = (refl, refl)
custom_after_reboot d weekday_field v = (refl, refl)
