-- ===== src/Cron/Page.antt =====
-- pages/CronJobs.tsx: the entries of a crontab and whether they differ from those that were loaded.
pub mod Laws
use vps_pilot.Base.{
  String, ◌<>◌, Bool, true, false, not, Option, none, some, List, [], ◌∷◌, ◌++◌, map, ◌==◌,
  if◌then◌else◌,
}
use vps_pilot.Base.Lists.{on_some}
use vps_pilot.Compose.Mount.{is_set}
use vps_pilot.Cron.Entry.{CronEntry, EntryType, job, comment_line, env, blank}

pub record CronPage : Type 0 where
  pub entries : List CronEntry
  pub dirty : Bool

abbrev is_job : EntryType → Bool
is_job job = true
is_job _ = false

-- `jobEntries`
unfoldable pub job_entries : List CronEntry → List CronEntry
job_entries [] = []
job_entries (e ∷ es) = let rest = job_entries es in if is_job e.entry_type then e ∷ rest else rest

-- `prev.map(e => e.id === id ? f(e) : e)`
abbrev pub change_by_id : String → (CronEntry → CronEntry) → List CronEntry → List CronEntry
change_by_id id f [] = []
change_by_id id f (e ∷ es) = (if e.id == id then f e else e) ∷ change_by_id id f es

-- `prev.filter(e => e.id !== id)`
abbrev pub drop_by_id : String → List CronEntry → List CronEntry
drop_by_id id [] = []
drop_by_id id (e ∷ es) = let rest = drop_by_id id es in if e.id == id then rest else e ∷ rest

-- `handleEntryDialogSave`; `now` is the text of `Date.now()`.
abbrev pub saved : String → Option CronEntry → CronEntry → List CronEntry → List CronEntry
saved now (some editing) updated es =
    change_by_id editing.id (λ e. record updated { id = editing.id }) es
saved now none updated es = es ++ record updated { id = "new-" <> now; entry_type = job } ∷ []

unfoldable pub save_entry : String → Option CronEntry → CronEntry → CronPage → CronPage
save_entry now editing updated p = record p {
  entries = saved now editing updated p.entries;
  dirty = true;
}

-- `!e.disabled`
abbrev pub toggled : CronEntry → CronEntry
toggled e = record e { disabled = some (not (is_set e.disabled)) }

-- `handleToggle`
unfoldable pub toggle_entry : String → CronPage → CronPage
toggle_entry id p = record p { entries = change_by_id id toggled p.entries; dirty = true }

-- `handleDelete`
unfoldable pub delete_entry : String → CronPage → CronPage
delete_entry id p = record p { entries = drop_by_id id p.entries; dirty = true }
