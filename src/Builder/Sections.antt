-- ===== src/Builder/Sections.antt =====
-- components/compose/ComposeBuilder.tsx: `PortsSection`, `VolumesSection`, `DependsOnSection`,
-- `HealthCheckSection`, `ResourcesSection` and `StrListSection`: what their inputs and buttons hand to
-- `onChange`. Ports and mounts that the parser passed on unread are left out here.
pub mod Laws
use vps_pilot.Base.{
  ℕ, String, Bool, true, false, not, ◌||◌, Option, none, some, List, [], ◌∷◌, ◌++◌, ◌==◌,
  if◌then◌else◌,
}
use vps_pilot.Base.Text.{nonempty}
use vps_pilot.Base.Lists.{edit_at, remove_at}
use vps_pilot.Js.{Value, str, Number}
use vps_pilot.Compose.Port.{PortSpec}
use vps_pilot.Compose.Mount.{VolumeMount}
use vps_pilot.Compose.Service.{DependsOnEntry, HealthCheck, ResourceLimits}

-- `val || undefined`
abbrev pub or_none : String → Option String
or_none s = if nonempty s then some s else none

pub data PortField : Type 0 where
  ip_field host_field container_field protocol_field : PortField

-- `{ ...p, [field]: val || undefined }`
abbrev set_port : PortField → String → PortSpec → PortSpec
set_port ip_field val p = record p { ip = or_none val }
set_port host_field val p = record p { host = or_none val }
set_port container_field val p = record p { container = or_none val }
set_port protocol_field val p = record p { protocol = or_none val }

unfoldable pub update_port : ℕ → PortField → String → List PortSpec → List PortSpec
unfolding edit_at
update_port i f val ports = edit_at i (set_port f val) ports

unfoldable remove_port : ℕ → List PortSpec → List PortSpec
unfolding remove_at
remove_port i ports = remove_at i ports

unfoldable add_port : List PortSpec → List PortSpec
add_port ports =
    ports
    ++ record { ip = some "0.0.0.0"; host = some "8080"; container = some "8080"; protocol = none }
      ∷ []

-- An element of `expose`, or of a `StrListSection`.
unfoldable update_text : ℕ → String → List String → List String
unfolding edit_at
update_text i val items = edit_at i (λ item. val) items

unfoldable remove_text : ℕ → List String → List String
unfolding remove_at
remove_text i items = remove_at i items

unfoldable add_text : String → List String → List String
add_text item items = items ++ item ∷ []

data MountEdit : Type 0 where
  set_source set_target : String → MountEdit
  set_read_only : Bool → MountEdit

-- `{ ...v, [field]: val }`
abbrev set_mount : MountEdit → VolumeMount → VolumeMount
set_mount (set_source val) v = record v { source = val }
set_mount (set_target val) v = record v { target = val }
set_mount (set_read_only val) v = record v { read_only = some val }

unfoldable update_mount : ℕ → MountEdit → List VolumeMount → List VolumeMount
unfolding edit_at
update_mount i e volumes = edit_at i (set_mount e) volumes

unfoldable add_mount_row : List VolumeMount → List VolumeMount
add_mount_row volumes = volumes ++ record { source = ""; target = "/data"; read_only = none } ∷ []

-- `deps.find((d) => d.service === s)`
abbrev pub depends : String → List DependsOnEntry → Bool
depends s [] = false
depends s (d ∷ ds) = d.service == s || depends s ds

-- `allServices.filter((s) => !deps.find((d) => d.service === s))`
unfoldable pub available : List DependsOnEntry → List String → List String
available deps [] = []
available deps (s ∷ ss) = let rest = available deps ss in if depends s deps then rest else s ∷ rest

-- A choice from the list: its first option has no value.
unfoldable pub add_dependency : String → List DependsOnEntry → List DependsOnEntry
add_dependency s deps =
    if nonempty s
    then deps ++ record { service = s; condition = str "service_started" } ∷ []
    else deps

unfoldable set_condition : ℕ → String → List DependsOnEntry → List DependsOnEntry
unfolding edit_at
set_condition i c deps = edit_at i (λ d. record d { condition = str c }) deps

unfoldable remove_dependency : ℕ → List DependsOnEntry → List DependsOnEntry
unfolding remove_at
remove_dependency i deps = remove_at i deps

-- `hc ?? {}`
abbrev current_check : Option HealthCheck → HealthCheck
current_check none = record {
  test = none;
  interval = none;
  timeout = none;
  retries = none;
  start_period = none;
  disable = none;
}
current_check (some h) = h

data CheckEdit : Type 0 where
  set_test set_interval set_timeout set_start_period : String → CheckEdit
  set_retries : Option Number → CheckEdit

unfoldable edit_check : CheckEdit → Option HealthCheck → HealthCheck
edit_check (set_test v) hc = record (current_check hc) { test = some v }
edit_check (set_interval v) hc = record (current_check hc) { interval = some v }
edit_check (set_timeout v) hc = record (current_check hc) { timeout = some v }
edit_check (set_start_period v) hc = record (current_check hc) { start_period = some v }
edit_check (set_retries n) hc = record (current_check hc) { retries = n }

abbrev current_limits : Option ResourceLimits → ResourceLimits
current_limits none = record { cpus = none; memory = none }
current_limits (some l) = l

unfoldable set_cpus : String → Option ResourceLimits → ResourceLimits
set_cpus v limits = record (current_limits limits) { cpus = or_none v }

unfoldable set_memory : String → Option ResourceLimits → ResourceLimits
set_memory v limits = record (current_limits limits) { memory = or_none v }
