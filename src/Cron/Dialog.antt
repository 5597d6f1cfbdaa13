-- ===== src/Cron/Dialog.antt =====
-- components/CronEntryDialog.tsx: the entry that is edited and the preset that is chosen. The server's
-- check of the expression is left out.
pub mod Laws
use vps_pilot.Base.{
  ℕ, zero, suc, String, Bool, true, false, not, ◌&&◌, Option, none, some, List, [], ◌∷◌, ◌==◌,
  if◌then◌else◌, or_else,
}
use vps_pilot.Base.Text.{split, begins_with}
use vps_pilot.Base.Lists.{get_elem?}
use vps_pilot.Compose.Port.{filled}
use vps_pilot.Cron.Entry.{CronEntry, job, current_expr}

pub data SchedMode : Type 0 where
  preset_mode custom_mode : SchedMode

-- The values of `PRESETS` but the last.
abbrev pub schedules : List String
schedules =
    "* * * * *" ∷ "0 * * * *" ∷ "0 0 * * *" ∷ "0 12 * * *" ∷ "0 0 * * 0" ∷ "0 0 1 * *" ∷ "0 0 1 1 *"
    ∷ "@reboot" ∷ []

abbrev pub blank_job : CronEntry
blank_job = record {
  id = "";
  entry_type = job;
  disabled = some false;
  special = some "";
  minute = some "*";
  hour = some "*";
  day = some "*";
  month = some "*";
  weekday = some "*";
  command = some "";
  comment = some "";
  next_run = none;
  raw = none;
}

pub record CronDialog : Type 0 where
  pub entry : CronEntry
  pub sched_mode : SchedMode
  pub preset : String

-- `PRESETS.find(p => p.value !== "custom" && p.value === sched)`
abbrev find_preset : String → List String → Option String
find_preset sched [] = none
find_preset sched (v ∷ vs) = let rest = find_preset sched vs in if v == sched then some v else rest

abbrev opened_with : CronEntry → Option String → CronDialog
opened_with e none = record { entry = e; sched_mode = custom_mode; preset = "custom" }
opened_with e (some v) = record { entry = e; sched_mode = preset_mode; preset = v }

-- The effect that resets the form when the dialog opens.
unfoldable pub open_dialog : Option CronEntry → CronDialog
unfolding current_expr
open_dialog initial =
    let e = or_else initial blank_job in opened_with e (find_preset (current_expr e) schedules)

-- `{ ...e, special: value, minute: "*", … }`
abbrev with_special : String → CronEntry → CronEntry
with_special value e = record e {
  special = some value;
  minute = some "*";
  hour = some "*";
  day = some "*";
  month = some "*";
  weekday = some "*";
}

-- `{ ...e, special: "", minute: parts[0], … }`
abbrev with_parts : List String → CronEntry → CronEntry
with_parts parts e = record e {
  special = some "";
  minute = get_elem? parts 0;
  hour = get_elem? parts 1;
  day = get_elem? parts 2;
  month = get_elem? parts 3;
  weekday = get_elem? parts 4;
}

-- `applyPreset`
unfoldable pub apply_preset : String → CronDialog → CronDialog
unfolding split begins_with
apply_preset value d =
    if value == "custom" then record d { preset = value; sched_mode = custom_mode } else record d {
      preset = value;
      sched_mode = preset_mode;
      entry =
          if begins_with b'@' value
          then with_special value d.entry
          else with_parts (split b' ' value) d.entry;
    }

-- The field of an `InlineFieldPicker`.
pub data TimeField : Type 0 where
  minute_field hour_field day_field month_field weekday_field : TimeField

-- `setField(f, v)`
unfoldable pub set_field : TimeField → String → CronDialog → CronDialog
set_field minute_field v d = record d { entry = record d.entry { minute = some v } }
set_field hour_field v d = record d { entry = record d.entry { hour = some v } }
set_field day_field v d = record d { entry = record d.entry { day = some v } }
set_field month_field v d = record d { entry = record d.entry { month = some v } }
set_field weekday_field v d = record d { entry = record d.entry { weekday = some v } }

abbrev is_custom : SchedMode → Bool
is_custom custom_mode = true
is_custom preset_mode = false

-- `schedMode === "custom" && !entry.special`
unfoldable pub shows_fields : CronDialog → Bool
shows_fields d = is_custom d.sched_mode && not (filled d.entry.special)
