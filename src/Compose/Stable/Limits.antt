-- ===== src/Compose/Stable/Limits.antt =====
-- Deploy and logging of a service, written, read and written again.

use vps_pilot.Base.{
  String, ◌≡◌, refl, ap, ◌∙◌, true, ◌||◌, Option, none, some, Bool-cases, inl, inr,
}
use vps_pilot.Base.Text.{nonempty}
use vps_pilot.Js.{Value, undefined, obj, end, has_keys, text?, member}
use vps_pilot.Compose.Port.{filled}
use vps_pilot.Compose.Service.{ResourceLimits, Deploy, LoggingConfig}
use vps_pilot.Compose.Parse.{is_record, record?, cpus_text, parse_deploy, parse_logging}
use vps_pilot.Compose.Serialize.{
  write_all, get-write_all, text_write, keyed_write, limit_writes, limits_of, limits_write,
  deploy_object, deploy_write, log_writes, logging_write,
}
use vps_pilot.Compose.Stable.Fields.{reread, text_stable}
use vps_pilot.Compose.Stable.Groups.{filled_again}

read_limits : ResourceLimits → ResourceLimits
read_limits lim = record {
  cpus = cpus_text (reread (text_write lim.cpus));
  memory = text? (reread (text_write lim.memory));
}

cpus_stable : (o : Option String) → text_write (cpus_text (reread (text_write o))) ≡ text_write o
unfolding text_write
cpus_stable none = refl
cpus_stable (some String.[]) = refl
cpus_stable (some (String.◌∷◌ c s)) = refl

cpus_filled : (o : Option String) → filled (cpus_text (reread (text_write o))) ≡ filled o
unfolding text_write
cpus_filled none = refl
cpus_filled (some String.[]) = refl
cpus_filled (some (String.◌∷◌ c s)) = refl

limits_read :
    (lim : ResourceLimits)
    → parse_deploy (deploy_object (write_all (limit_writes lim) end))
      ≡ some (record { resources = some (record { limits = some (read_limits lim) }) })
unfolding parse_deploy member read_limits
limits_read lim =
    rw (get-write_all "cpus" (limit_writes lim) end, get-write_all "memory" (limit_writes lim) end)
      refl

no_deploy : deploy_write (parse_deploy undefined) ≡ none
unfolding deploy_write parse_deploy member
no_deploy = refl

limits_again :
    (lim : ResourceLimits)
    → (filled lim.cpus || filled lim.memory) ≡ true
    → deploy_write (parse_deploy (deploy_object (write_all (limit_writes lim) end)))
      ≡ some (deploy_object (write_all (limit_writes lim) end))
unfolding deploy_write read_limits
limits_again lim t =
    ap deploy_write (limits_read lim)
    ∙ (rw
        (
          cpus_filled lim.cpus,
          filled_again lim.memory,
          t,
          cpus_stable lim.cpus,
          text_stable lim.memory,
        )
        refl)

limits_stable :
    (l : Option ResourceLimits)
    → deploy_write (parse_deploy (reread (limits_write l))) ≡ limits_write l
limits_stable none = no_deploy
limits_stable (some lim) = elim (Bool-cases (filled lim.cpus || filled lim.memory)) [
  | inl t ↦ rw t (limits_again lim t)
  | inr f ↦ rw f no_deploy
]

pub deploy_stable :
    (o : Option Deploy) → deploy_write (parse_deploy (reread (deploy_write o))) ≡ deploy_write o
unfolding deploy_write
deploy_stable o = limits_stable (limits_of o)

abbrev pub OptionsAreRecord : Option Value → Type 0
OptionsAreRecord none = Unit
OptionsAreRecord (some v) = is_record v ≡ true

-- The options of the log driver, if they are there, are an object.
abbrev pub LoggingIsStable : Option LoggingConfig → Type 0
LoggingIsStable none = Unit
LoggingIsStable (some l) = OptionsAreRecord l.options

options_again :
    (o : Option Value)
    → OptionsAreRecord o
    → keyed_write (record? (reread (keyed_write o))) ≡ keyed_write o
options_again none h = refl
options_again (some v) h = elim (Bool-cases (has_keys v)) [
  | inl k ↦ rw k (rw h (rw k refl))
  | inr n ↦ rw n refl
]

logging_again :
    (d : String) (o : Option Value)
    → OptionsAreRecord o
    → nonempty d ≡ true
    → let l : LoggingConfig = record { driver = some d; options = o } in
      logging_write (parse_logging (obj (write_all (log_writes l) end)))
      ≡ some (obj (write_all (log_writes l) end))
unfolding parse_logging logging_write member
logging_again d o h f =
    rw (get-write_all "driver" (log_writes l) end, get-write_all "options" (log_writes l) end)
      (rw (f, options_again o h) refl)
  where
    l : LoggingConfig
    l = record { driver = some d; options = o }

logging_of :
    (d : Option String) (o : Option Value)
    → OptionsAreRecord o
    → let l : LoggingConfig = record { driver = d; options = o } in
      logging_write (parse_logging (reread (logging_write (some l)))) ≡ logging_write (some l)
unfolding parse_logging logging_write
logging_of none o h = refl
logging_of (some d) o h = elim (Bool-cases (nonempty d)) [
  | inl t ↦ rw t (logging_again d o h t)
  | inr f ↦ rw f refl
]

pub logging_stable :
    (o : Option LoggingConfig)
    → LoggingIsStable o
    → logging_write (parse_logging (reread (logging_write o))) ≡ logging_write o
unfolding parse_logging logging_write
logging_stable none h = refl
logging_stable (some l) h = logging_of l.driver l.options h
