-- ===== src/Compose/Stable/Groups.antt =====
-- Build, healthcheck, deploy and logging of a service, written, read and written again.

use mathlib.Core.Path.{subst}
use text.Mathlib.TextLemmas.{append-nil}
use vps_pilot.Base.{
  String, ◌≡◌, refl, ap, ◌∙◌, true, false, Option, none, some, Bool-cases, inl, inr, arith,
}
use vps_pilot.Js.{
  put, join_items, Value, Fields, obj, end, field, has_keys, text?, number?, member, of_text,
}
use vps_pilot.Compose.Port.{filled}
use vps_pilot.Compose.Mount.{is_set}
use vps_pilot.Compose.Service.{BuildConfig, HealthCheck}
use vps_pilot.Compose.Parse.{
  is_record, record?, test_text, parse_healthcheck, build_object, parse_build,
}
use vps_pilot.Compose.Serialize.{
  write_all, get-write_all, text_write, number_write, nonempty_object, keyed_write, build_writes,
  context_only, build_value, build_write, test_write, health_writes, health_write,
}
use vps_pilot.Compose.Stable.Fields.{reread, text_stable, number_stable}

-- An argument map that is there is an object with a key.
abbrev pub ArgsAreStable : Option Value → Type 0
ArgsAreStable none = Unit
ArgsAreStable (some v) = (is_record v ≡ true) × (has_keys v ≡ true)

abbrev pub BuildIsStable : Option BuildConfig → Type 0
BuildIsStable none = Unit
BuildIsStable (some b) = ArgsAreStable b.args

pub filled_again : (o : Option String) → filled (text? (reread (text_write o))) ≡ filled o
unfolding text_write
filled_again none = refl
filled_again (some String.[]) = refl
filled_again (some (String.◌∷◌ c s)) = refl

args_again : (o : Option Value) → ArgsAreStable o → record? (reread (keyed_write o)) ≡ o
args_again none h = refl
args_again (some v) (h, k) = rw k (rw h refl)

-- The object of a build section, read again.
build_read :
    (b : BuildConfig)
    → build_object (obj (write_all (build_writes b) end)) ≡ record {
      context = text? (reread (text_write b.context));
      dockerfile = text? (reread (text_write b.dockerfile));
      args = record? (reread (keyed_write b.args));
      target = text? (reread (text_write b.target));
    }
unfolding member
build_read b =
    rw
      (
        get-write_all "context" (build_writes b) end,
        get-write_all "dockerfile" (build_writes b) end,
        get-write_all "args" (build_writes b) end,
        get-write_all "target" (build_writes b) end,
      )
      refl

context_again :
    (o : Option String) → filled o ≡ true → build_write (parse_build (of_text o)) ≡ some (of_text o)
unfolding build_write parse_build
context_again none h = cc
context_again (some String.[]) h = cc
context_again (some (String.◌∷◌ c s)) h = refl

-- What is read of the object of a build section.
abbrev read_build : BuildConfig → BuildConfig
read_build b = record {
  context = text? (reread (text_write b.context));
  dockerfile = text? (reread (text_write b.dockerfile));
  args = record? (reread (keyed_write b.args));
  target = text? (reread (text_write b.target));
}

read_build-context_only :
    (b : BuildConfig) → ArgsAreStable b.args → context_only (read_build b) ≡ context_only b
read_build-context_only b h =
    rw
      (
        filled_again b.context,
        filled_again b.dockerfile,
        filled_again b.target,
        args_again b.args h,
      )
      refl

read_build-writes :
    (b : BuildConfig) → ArgsAreStable b.args → build_writes (read_build b) ≡ build_writes b
read_build-writes b h =
    rw (text_stable b.context, text_stable b.dockerfile, text_stable b.target, args_again b.args h)
      refl

object_again :
    (b : BuildConfig)
    → ArgsAreStable b.args
    → context_only b ≡ false
    → build_value (build_object (obj (write_all (build_writes b) end)))
      ≡ obj (write_all (build_writes b) end)
unfolding build_value
object_again b h f =
    ap build_value (build_read b)
    ∙ (rw (read_build-context_only b h, f)
        (ap (λ ws. obj (write_all ws end)) (read_build-writes b h)))

pub build_stable :
    (o : Option BuildConfig)
    → BuildIsStable o
    → build_write (parse_build (reread (build_write o))) ≡ build_write o
unfolding build_write parse_build
build_stable none h = refl
build_stable (some b) h = elim (Bool-cases (context_only b)) [
  | inl t ↦ rw t (context_again b.context (ground arith))
  | inr f ↦ rw f (ap some (object_again b h f))
]

test_stable : (o : Option String) → test_write (test_text (reread (test_write o))) ≡ test_write o
unfolding join_items
test_stable none = refl
test_stable (some String.[]) = refl
test_stable (some (String.◌∷◌ c s)) = rw append-nil refl

-- What is read of a health check that is not switched off.
abbrev read_health : HealthCheck → HealthCheck
read_health h = record {
  test = test_text (reread (test_write h.test));
  interval = text? (reread (text_write h.interval));
  timeout = text? (reread (text_write h.timeout));
  retries = number? (reread (number_write h.retries));
  start_period = text? (reread (text_write h.start_period));
  disable = some false;
}

read_health-writes :
    (h : HealthCheck) → is_set h.disable ≡ false → health_writes (read_health h) ≡ health_writes h
read_health-writes h off =
    rw
      (
        off,
        test_stable h.test,
        text_stable h.interval,
        text_stable h.timeout,
        number_stable h.retries,
        text_stable h.start_period,
      )
      refl

health_read :
    (h : HealthCheck)
    → is_set h.disable ≡ false
    → parse_healthcheck (obj (write_all (health_writes h) end)) ≡ some (read_health h)
unfolding parse_healthcheck member
health_read h off =
    rw
      (
        get-write_all "test" (health_writes h) end,
        get-write_all "interval" (health_writes h) end,
        get-write_all "timeout" (health_writes h) end,
        get-write_all "retries" (health_writes h) end,
        get-write_all "start_period" (health_writes h) end,
        get-write_all "disable" (health_writes h) end,
      )
      (rw off refl)

-- An object is read and written again, or there is none.
health_again :
    (h : HealthCheck)
    → is_set h.disable ≡ false
    → (fs : Fields) → write_all (health_writes h) end ≡ fs
    → health_write (parse_healthcheck (reread (nonempty_object fs))) ≡ nonempty_object fs
unfolding health_write parse_healthcheck
health_again h off end e = refl
health_again h off (field k v fs) e =
    ap health_write
      (subst (λ t. parse_healthcheck (obj t) ≡ some (read_health h)) e (health_read h off))
    ∙ ap nonempty_object (ap (λ ws. write_all ws end) (read_health-writes h off) ∙ e)

pub health_stable :
    (o : Option HealthCheck)
    → health_write (parse_healthcheck (reread (health_write o))) ≡ health_write o
unfolding health_write parse_healthcheck write_all member put
health_stable none = refl
health_stable (some h) = elim (Bool-cases (is_set h.disable)) [
  | inl t ↦ rw t refl
  | inr f ↦ health_again h f _ refl
]
