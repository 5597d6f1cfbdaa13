-- ===== src/Pages/Streams.antt =====
-- pages/Logs.tsx, pages/ProjectLogs.tsx and pages/Events.tsx: the lines and events that a socket
-- brings. `toLowerCase` and `JSON.parse` are arguments, the time of an unparsed line is too.
pub mod Windows
pub mod Numbers
use vps_pilot.Base.Filter.{keep}
use vps_pilot.Base.{
  ℕ, suc, ◌+◌, String, ◌<>◌, Bool, true, false, not, ◌&&◌, ◌||◌, Option, none, some, List, [], ◌∷◌,
  ◌++◌, ◌==◌, if◌then◌else◌, ltb, length, is_nil,
}
use vps_pilot.Base.Text.{nonempty}
use vps_pilot.Base.Scan.{contains, take_last}
use vps_pilot.Base.Dict.{Dict}
use vps_pilot.Base.Uri.{query_text}
use vps_pilot.Js.{Value, str, is_nullish, truthy, member, undefined}

-- `WSMessage<T>`
pub record Message (A : Type 0) : Type 0 where
  pub kind : String
  pub content : A

-- `setLines((p) => [...p.slice(-n), line])`
unfoldable pub append_line {ℓ} : {A : Type ℓ} → ℕ → List A → A → List A
unfolding take_last
append_line n lines line = take_last n lines ++ line ∷ []

-- The callback of `ServerLogs`, and `onMessage` of `JournalLogs`.
unfoldable pub on_log : Bool → Message String → List String → List String
unfolding append_line
on_log paused msg lines =
    if msg.kind == "log" && not paused then append_line 2000 lines msg.content else lines

-- `filtered` of `ServerLogs`
unfoldable is_log_shown : (String → String) → String → String → String → Bool
unfolding contains
is_log_shown lower search level line =
    if nonempty search && not (contains (lower search) (lower line))
    then false
    else if not (level == "all") && not (contains ("level=" <> level) (lower line))
    then false
    else true

-- `filtered` of `JournalLogs`
unfoldable is_journal_shown : (String → String) → String → String → Bool
unfolding contains
is_journal_shown lower search line = not (nonempty search) || contains (lower search) (lower line)

-- `if (v) params.set(k, v)`
abbrev param : String → String → Dict String
param k v = if nonempty v then (k, v) ∷ [] else []

-- `params.size ? "?" + params : ""`
abbrev with_query : String → Dict String → String
with_query path params = if is_nil params then path else path <> ("?" <> query_text params)

-- `wsUrl` of `JournalLogs`
unfoldable journal_url : String → String → String
unfolding query_text
journal_url unit priority =
    with_query "/api/ws/logs/journalctl" (param "unit" unit ++ param "priority" priority)

-- `v === undefined`
abbrev is_undefined : Value → Bool
is_undefined undefined = true
is_undefined _ = false

record LogLine : Type 0 where
  pub container : Value
  pub log : Value
  pub time : Value

-- `parsed && parsed.log !== undefined`
abbrev has_log : Value → Bool
has_log v = truthy v && not (is_undefined (member "log" v))

-- The line of a text that has none of its own.
abbrev raw_line : String → String → LogLine
raw_line now raw = record { container = str ""; log = str raw; time = str now }

abbrev line_of : Option Value → LogLine → LogLine
line_of none raw = raw
line_of (some v) raw =
    if has_log v
    then record { container = member "container" v; log = member "log" v; time = member "time" v }
    else raw

-- `parseLogLine`
unfoldable parse_log_line : (String → Option Value) → String → String → LogLine
parse_log_line parse now raw = line_of (parse raw) (raw_line now raw)

-- `DockerEvent`, as far as the page reads it, and `EventEntry` with its number.
pub record DockerEvent : Type 0 where
  pub event_type : String
  pub action : String
  pub actor_name : Option String
  pub actor_id : Option String

pub record EventEntry : Type 0 where
  pub event : DockerEvent
  pub seq : ℕ

-- `next.length > 500 ? next.slice(-500) : next`
abbrev pub last_500 {ℓ} : {A : Type ℓ} → List A → List A
last_500 next = if ltb 500 (length next) then take_last 500 next else next

-- The events of the page and `seqRef.current`.
pub record EventsPage : Type 0 where
  pub events : List EventEntry
  pub next_seq : ℕ

-- `onMessage` of `Events`
unfoldable pub on_docker_event : Bool → DockerEvent → EventsPage → EventsPage
unfolding take_last
on_docker_event paused msg p = if paused then p else record {
  events = last_500 (p.events ++ record { event = msg; seq = p.next_seq } ∷ []);
  next_seq = suc p.next_seq;
}

-- `wsPath` of `Events`
unfoldable events_path : String → String → String
unfolding query_text
events_path type_filter action_filter =
    let text = query_text (param "type" type_filter ++ param "action" action_filter) in
    if nonempty text then "/api/ws/events" <> ("?" <> text) else "/api/ws/events"

-- The test of `visibleEvents`
abbrev is_visible_event : String → String → EventEntry → Bool
is_visible_event type_filter action_filter e =
    if nonempty type_filter && not (e.event.event_type == type_filter)
    then false
    else if nonempty action_filter && not (e.event.action == action_filter)
    then false
    else true

-- `visibleEvents`
unfoldable visible_events : String → String → List EventEntry → List EventEntry
visible_events type_filter action_filter events =
    if nonempty type_filter || nonempty action_filter
    then keep (is_visible_event type_filter action_filter) events
    else events
