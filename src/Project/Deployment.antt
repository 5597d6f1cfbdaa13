-- ===== src/Project/Deployment.antt =====
-- pages/ProjectDetail.tsx: `useDeployState`. Sockets are numbered in the order in which they are
-- made; a handler is a call with the number of its socket, which the code does not look at. The
-- address is given by its parameters; what `onSuccess` does is a flag of the result.
pub mod Laws
use vps_pilot.Base.{
  ℕ, ◌+◌, String, ◌<>◌, Bool, true, false, ◌&&◌, Option, none, some, List, [], ◌∷◌, ◌++◌, ◌==◌,
  if◌then◌else◌,
}
use vps_pilot.Base.Dict.{Dict}
use vps_pilot.Js.{Value, undefined, null, str, truthy, is_nullish, coalesce, member, to_text}

pub data Action : Type 0 where
  deploy repull_current pull_new : Action

pub record Deployment : Type 0 where
  pub deploying : Bool
  pub logs : List Value
  pub action : Option Action
  pub ws : Option ℕ
  pub made : ℕ

abbrev action_text : Action → String
action_text deploy = "deploy"
action_text repull_current = "repull_current"
action_text pull_new = "pull_new"

abbrev is_pull_new : Action → Bool
is_pull_new pull_new = true
is_pull_new _ = false

-- The parameters of the address.
unfoldable pub params : Action → Bool → Dict String
params a with_rollback =
    ("action", action_text a)
    ∷ (if is_pull_new a && with_rollback then ("rollback", "true") ∷ [] else [])

-- `start`
unfoldable pub start : Action → Deployment → Deployment
start a d = record d {
  deploying = true;
  action = some a;
  logs = [];
  ws = some d.made;
  made = d.made + 1;
}

abbrev pub log : Value → Deployment → Deployment
log line d = record d { logs = d.logs ++ line ∷ [] }

-- `if (evt.line) …`
abbrev log_line : Value → Deployment → Deployment
log_line evt d = if truthy (member "line" evt) then log (member "line" evt) d else d

-- `[${msg.type ?? evt.type}] ${evt.status}${evt.error ? ": " + evt.error : ""}`
abbrev status_text : Value → Value → String
status_text msg evt =
    "["
    <> (to_text (coalesce (member "type" msg) (member "type" evt))
        <> ("] "
            <> (to_text (member "status" evt)
                <> (if truthy (member "error" evt)
                    then ": " <> to_text (member "error" evt)
                    else ""))))

abbrev log_status : Value → Value → Deployment → Deployment
log_status msg evt d = if truthy (member "status" evt) then log (str (status_text msg evt)) d else d

-- `msg.type === "done"`
abbrev is_done_type : Value → Bool
is_done_type (str s) = s == "done"
is_done_type _ = false

abbrev pub finish : Value → Deployment → Deployment × Bool
finish evt d =
    if truthy (member "success" evt)
    then (log (str "✓ Completed successfully") (record d { deploying = false }), true)
    else if truthy (member "error" evt)
    then (log (str ("✗ " <> to_text (member "error" evt))) (record d { deploying = false }), false)
    else (record d { deploying = false }, false)

abbrev handle_event : Value → Value → Deployment → Deployment × Bool
handle_event msg evt d =
    let logged = log_status msg evt (log_line evt d) in
    if is_done_type (member "type" msg) then finish evt logged else (logged, false)

-- `ws.onmessage`, for the value that `JSON.parse` makes of the text, `none` where it throws; a read
-- of a property of null throws too. The flag says whether `onSuccess` is called.
unfoldable pub on_message : ℕ → Option Value → Deployment → Deployment × Bool
unfolding member to_text
on_message socket none d = (d, false)
on_message socket (some msg) d =
    if is_nullish msg then (d, false) else handle_event msg (coalesce (member "data" msg) msg) d

-- `ws.onerror`
unfoldable on_error : ℕ → Deployment → Deployment
on_error socket d = log (str "WebSocket error") (record d { deploying = false })

-- `ws.onclose`
unfoldable pub on_close : ℕ → Deployment → Deployment
on_close socket d = record d { deploying = false }

-- `cancel`: the browser closes the socket, whose handler runs later.
unfoldable pub cancel : Deployment → Deployment
cancel d = record d { deploying = false; logs = [] }

-- `reset`
unfoldable reset : Deployment → Deployment
reset d = record d { logs = []; deploying = false; action = none }
