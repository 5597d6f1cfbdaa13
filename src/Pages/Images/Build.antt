-- ===== src/Pages/Images/Build.antt =====
-- pages/Images.tsx: `BuildImageDialog`. The text of a message is parsed before it is an event; one
-- that is no JSON is none. Times are left out: an event is what happens next.
pub mod Laws
use vps_pilot.Base.Filter.{keep}
use vps_pilot.Base.{
  ℕ, String, ◌≡◌, ◌≢◌, refl, sym, ap, ◌∙◌, Bool, true, false, not, ◌&&◌, ◌||◌, Option, none, some,
  List, [], ◌∷◌, ◌++◌, ◌==◌, eq_iff, arith, if◌then◌else◌, or_else, All, Bool-cases, inl, inr,
}
use vps_pilot.Base.Text.{nonempty, split}
use vps_pilot.Base.Scan.{trim, is_some}
use vps_pilot.Base.Lists.{edit_at, remove_at}
use vps_pilot.Base.Dict.{Dict, insert, lookup, lookup-insert}
use vps_pilot.Js.{Value, member, truthy, is_nullish}
use vps_pilot.Compose.Port.{filled}

pub record BuildArg : Type 0 where
  pub key : String
  pub value : String

pub record BuildDialog : Type 0 where
  pub dockerfile : String
  pub tags : String
  pub target : String
  pub no_cache : Bool
  pub build_args : List BuildArg
  pub build_id : Option String
  pub logs : List Value
  pub done : Bool
  pub build_error : Option Value
  pub is_pending : Bool

-- The values that `useState` starts with.
unfoldable pub opened : BuildDialog
opened = record {
  dockerfile = "FROM alpine:latest\nRUN echo \"Hello, World!\"\n";
  tags = "myimage:latest";
  target = "";
  no_cache = false;
  build_args = [];
  build_id = none;
  logs = [];
  done = false;
  build_error = none;
  is_pending = false;
}

-- `if (evt.stream) setLogs(…)`
abbrev pub on_stream : Value → BuildDialog → BuildDialog
on_stream v d = if truthy v then record d { logs = d.logs ++ v ∷ [] } else d

-- `if (evt.error) { setBuildError(evt.error); setDone(true); }`
abbrev pub on_build_error : Value → BuildDialog → BuildDialog
on_build_error v d = if truthy v then record d { build_error = some v; done = true } else d

-- `if (evt.done) { setDone(true); … }`
abbrev pub on_done : Value → BuildDialog → BuildDialog
on_done v d = if truthy v then record d { done = true } else d

-- The body of `try`: reads of null and undefined throw and are caught.
unfoldable pub on_event : Value → BuildDialog → BuildDialog
unfolding member
on_event evt d =
    if is_nullish evt
    then d
    else on_done (member "done" evt)
        (on_build_error (member "error" evt) (on_stream (member "stream" evt) d))

-- `ws.onmessage`
unfoldable pub on_message : Option Value → BuildDialog → BuildDialog
unfolding on_event member
on_message none d = d
on_message (some msg) d = if is_nullish msg then d else on_event (member "data" msg) d

-- `ws.onerror`
unfoldable pub on_socket_error : BuildDialog → BuildDialog
on_socket_error d = record d { build_error = some (Value.str "WebSocket error"); done = true }

-- `startBuild.onSuccess`
unfoldable pub on_started : String → BuildDialog → BuildDialog
on_started id d = record d {
  build_id = some id;
  logs = [];
  done = false;
  build_error = none;
  is_pending = false;
}

-- The button "Build again".
unfoldable pub build_again : BuildDialog → BuildDialog
build_again d = record d { build_id = none; logs = []; done = false; build_error = none }

-- `isBuilding`
abbrev is_building : BuildDialog → Bool
is_building d = d.is_pending || (filled d.build_id && not d.done)

-- `addBuildArg`
unfoldable pub add_build_arg : BuildDialog → BuildDialog
add_build_arg d = record d { build_args = d.build_args ++ record { key = ""; value = "" } ∷ [] }

-- `removeBuildArg`
unfoldable pub remove_build_arg : ℕ → BuildDialog → BuildDialog
unfolding remove_at
remove_build_arg i d = record d { build_args = remove_at i d.build_args }

-- `updateBuildArg(i, "key", val)` and `updateBuildArg(i, "value", val)`
unfoldable pub update_build_key : ℕ → String → BuildDialog → BuildDialog
unfolding edit_at
update_build_key i val d = record d {
  build_args = edit_at i (λ a. record a { key = val }) d.build_args;
}

unfoldable pub update_build_value : ℕ → String → BuildDialog → BuildDialog
unfolding edit_at
update_build_value i val d = record d {
  build_args = edit_at i (λ a. record a { value = val }) d.build_args;
}

-- The `reduce` over the arguments: those of no key are left out.
unfoldable pub args_onto : Dict String → List BuildArg → Dict String
unfolding insert
args_onto acc [] = acc
args_onto acc (a ∷ more) = args_onto (if nonempty a.key then insert a.key a.value acc else acc) more

-- `tags.split(",").map((t) => t.trim()).filter(Boolean)`
abbrev trimmed : List String → List String
trimmed [] = []
trimmed (t ∷ ts) = trim t ∷ trimmed ts

unfoldable tag_list : String → List String
unfolding split trim
tag_list tags = keep nonempty (trimmed (split b',' tags))

record BuildSpec : Type 0 where
  pub dockerfile_content : String
  pub tags : List String
  pub target : Option String
  pub no_cache : Bool
  pub build_args : Dict String

-- `startBuild.mutationFn`: what is sent to the server.
unfoldable build_spec : BuildDialog → BuildSpec
unfolding tag_list args_onto
build_spec d = record {
  dockerfile_content = d.dockerfile;
  tags = tag_list d.tags;
  target = if nonempty d.target then some d.target else none;
  no_cache = d.no_cache;
  build_args = args_onto [] d.build_args;
}

-- What happens to the dialog. The button "Build" starts a request, which succeeds or fails.
pub data BuildStep : Type 0 where
  press_build fail again socket_error add_arg : BuildStep
  started : String → BuildStep
  message : Option Value → BuildStep
  remove_arg : ℕ → BuildStep
  set_key set_value : ℕ → String → BuildStep

unfoldable pub build_step : BuildStep → BuildDialog → BuildDialog
unfolding on_started build_again on_socket_error add_build_arg on_message remove_build_arg
    update_build_key update_build_value
build_step press_build d = record d { is_pending = true }
build_step fail d = record d { is_pending = false }
build_step again d = build_again d
build_step socket_error d = on_socket_error d
build_step add_arg d = add_build_arg d
build_step (started id) d = on_started id d
build_step (message m) d = on_message m d
build_step (remove_arg i) d = remove_build_arg i d
build_step (set_key i val) d = update_build_key i val d
build_step (set_value i val) d = update_build_value i val d

unfoldable pub build_steps : List BuildStep → BuildDialog → BuildDialog
unfolding build_step
build_steps [] d = d
build_steps (s ∷ ss) d = build_steps ss (build_step s d)
