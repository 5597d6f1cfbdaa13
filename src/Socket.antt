-- ===== src/Socket.antt =====
-- hooks/useWebSocket.ts: one run of the effect, from its start to its cleanup.
-- What the browser does, the phases of a socket and a timer that is due, decides which handler may
-- run; a message only goes to the caller's function, whose exceptions are caught.
pub mod Laws
pub mod Backoff
mod Tests
use vps_pilot.Base.{
  ℕ, ◌+◌, ◌*◌, ◌^◌, Bool, true, false, Option, none, some, ◌≡◌, ◌⊎◌, leb, if◌then◌else◌,
}

pub data Status : Type 0 where
  connecting opened closed : Status

-- The socket in `ws`: none was made or it is closed; it connects; it is open; it was told to close.
pub data Phase : Type 0 where
  gone pending live closing : Phase

-- `status` and the variables of the effect. `timer` is the delay of the timer that waits.
pub record Link : Type 0 where
  pub status : Status
  pub socket : Phase
  pub attempts : ℕ
  pub timer : Option ℕ
  pub dead : Bool

abbrev pub max_backoff_ms : ℕ
max_backoff_ms = 30000

abbrev min : ℕ → ℕ → ℕ
min a b = if leb a b then a else b

-- `Math.min(1_000 * 2 ** attempts, MAX_BACKOFF_MS)`
unfoldable pub delay : ℕ → ℕ
delay attempts = min (1000 * 2 ^ attempts) max_backoff_ms

-- `connect`
unfoldable pub connect : Link → Link
connect s = if s.dead then s else record s { socket = pending; status = connecting }

-- `ws.onopen`
unfoldable pub on_open : Link → Link
on_open s = record s { attempts = 0; status = opened }

-- `ws.onclose`
unfoldable pub on_close : Link → Link
on_close s =
    if s.dead
    then s
    else record s { status = closed; attempts = s.attempts + 1; timer = some (delay s.attempts) }

-- `ws?.close()`
abbrev pub close_socket : Phase → Phase
close_socket gone = gone
close_socket p = closing

-- The function that the effect returns.
unfoldable pub cleanup : Link → Link
cleanup s = record s { dead = true; timer = none; socket = close_socket s.socket }

-- The variables when the effect starts, and the status of the render before it.
abbrev pub fresh : Status → Link
fresh status = record { status = status; socket = gone; attempts = 0; timer = none; dead = false }

-- The effect: `connect()`.
unfoldable pub start : Status → Link
unfolding connect
start status = connect (fresh status)

-- What can happen next.
pub data Step : Link → Link → Type 0 where
  opens : {s s' : Link} → s.socket ≡ pending → on_open (record s { socket = live }) ≡ s' → Step s s'
  receives : {s s' : Link} → s.socket ≡ live → s ≡ s' → Step s s'
  closes :
      {s s' : Link}
      → (s.socket ≡ pending) ⊎ ((s.socket ≡ live) ⊎ (s.socket ≡ closing))
      → on_close (record s { socket = gone }) ≡ s'
      → Step s s'
  fires :
      {s s' : Link} {ms : ℕ}
      → s.timer ≡ some ms
      → connect (record s { timer = none }) ≡ s'
      → Step s s'
  unmounts : {s s' : Link} → s.dead ≡ false → cleanup s ≡ s' → Step s s'

pub data Run : Status → Link → Type 0 where
  begins : {status : Status} → Run status (start status)
  goes_on : {status : Status} {s s' : Link} → Run status s → Step s s' → Run status s'
