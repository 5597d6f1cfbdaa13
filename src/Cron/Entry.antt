-- ===== src/Cron/Entry.antt =====
-- api/cron.ts: `CronEntry`, and the schedule that is shown for one.
use vps_pilot.Base.{String, ◌<>◌, Bool, Option, if◌then◌else◌}
use vps_pilot.Compose.Port.{filled, shown}

pub data EntryType : Type 0 where
  job comment_line env blank : EntryType

pub record CronEntry : Type 0 where
  pub id : String
  pub entry_type : EntryType
  pub disabled : Option Bool
  pub special : Option String
  pub minute : Option String
  pub hour : Option String
  pub day : Option String
  pub month : Option String
  pub weekday : Option String
  pub command : Option String
  pub comment : Option String
  pub next_run : Option String
  pub raw : Option String

-- `${e.minute} ${e.hour} ${e.day} ${e.month} ${e.weekday}`
abbrev five_fields : CronEntry → String
five_fields e =
    shown e.minute
    <> (" "
        <> (shown e.hour
            <> (" " <> (shown e.day <> (" " <> (shown e.month <> (" " <> shown e.weekday)))))))

-- `currentExpr`, `sched` and `scheduleLabel`
unfoldable pub current_expr : CronEntry → String
current_expr e = if filled e.special then shown e.special else five_fields e
