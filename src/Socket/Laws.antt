-- ===== src/Socket/Laws.antt =====
-- What holds in every state that the connection reaches.
use mathlib.Core.Path.{subst}
use vps_pilot.Base.{
  ℕ, ◌+◌, ◌≤◌, Bool, true, false, Option, none, some, ◌≡◌, refl, sym, if◌then◌else◌,
}
use vps_pilot.Socket.{
  Status, connecting, opened, closed, Phase, gone, pending, live, closing, Link, delay,
  max_backoff_ms, connect, on_open, on_close, cleanup, close_socket, start, Step, opens, receives,
  closes, fires, unmounts, Run, begins, goes_on,
}
use vps_pilot.Socket.Backoff.{delay_bounds}

-- Before the cleanup: the status and the timer for each phase of the socket.
abbrev Alive : Phase → Status → Option ℕ → Type 0
Alive pending status timer = (status ≡ connecting) × (timer ≡ none)
Alive live status timer = (status ≡ opened) × (timer ≡ none)
Alive gone status none = ⊥
Alive gone status (some ms) = (status ≡ closed) × (1000 ≤ ms) × (ms ≤ max_backoff_ms)
Alive closing status timer = ⊥

-- After it: no timer waits and no socket connects or is open.
abbrev Ended : Phase → Option ℕ → Type 0
Ended gone timer = timer ≡ none
Ended closing timer = timer ≡ none
Ended p timer = ⊥

abbrev Sound : Bool → Phase → Status → Option ℕ → Type 0
Sound false p status timer = Alive p status timer
Sound true p status timer = Ended p timer

abbrev pub IsSound : Link → Type 0
IsSound s = Sound s.dead s.socket s.status s.timer

if-IsSound :
    (b : Bool) (s t : Link)
    → (b ≡ true → IsSound s)
    → (b ≡ false → IsSound t)
    → IsSound (if b then s else t)
if-IsSound true s t v w = v refl
if-IsSound false s t v w = w refl

open-Sound :
    (d : Bool) (status : Status) (timer : Option ℕ)
    → Sound d pending status timer
    → Sound d live opened timer
open-Sound false status timer (h, k) = (refl, k)
open-Sound true status timer v = absurd v

abbrev Ended-gone : (p : Phase) (timer : Option ℕ) → Ended p timer → Ended gone timer
Ended-gone gone timer v = v
Ended-gone closing timer v = v
Ended-gone pending timer v = absurd v
Ended-gone live timer v = absurd v

close-IsSound : (s : Link) → IsSound s → IsSound (on_close (record s { socket = gone }))
unfolding on_close
close-IsSound s v =
    if-IsSound s.dead (record s { socket = gone })
      (record s {
        socket = gone;
        status = closed;
        attempts = s.attempts + 1;
        timer = some (delay s.attempts);
      })
      (λ e.
        subst (λ d. Sound d gone s.status s.timer) (sym e)
          (Ended-gone s.socket s.timer (subst (λ d. Sound d s.socket s.status s.timer) e v)))
      (λ e.
        subst (λ d. Sound d gone closed (some (delay s.attempts))) (sym e)
          (refl, (delay_bounds s.attempts).0, (delay_bounds s.attempts).1))

no_timer : (p : Phase) (timer : Option ℕ) (ms : ℕ) → Ended p timer → timer ≡ some ms → ⊥
no_timer gone timer ms v h = cc
no_timer closing timer ms v h = cc
no_timer pending timer ms v h = v
no_timer live timer ms v h = v

fire-IsSound :
    (s : Link) (ms : ℕ)
    → s.timer ≡ some ms
    → IsSound s
    → IsSound (connect (record s { timer = none }))
unfolding connect
fire-IsSound s ms h v =
    if-IsSound s.dead (record s { timer = none })
      (record s { timer = none; socket = pending; status = connecting })
      (λ e.
        absurd
          (no_timer s.socket s.timer ms (subst (λ d. Sound d s.socket s.status s.timer) e v) h))
      (λ e. subst (λ d. Sound d pending connecting none) (sym e) (refl, refl))

closed_phase : (p : Phase) → Ended (close_socket p) none
closed_phase gone = refl
closed_phase pending = refl
closed_phase live = refl
closed_phase closing = refl

Step-IsSound : {s s' : Link} → Step s s' → IsSound s → IsSound s'
unfolding on_open cleanup
Step-IsSound {s} (opens h e) v =
    subst IsSound e
      (open-Sound s.dead s.status s.timer (subst (λ p. Sound s.dead p s.status s.timer) h v))
Step-IsSound (receives h e) v = subst IsSound e v
Step-IsSound {s} (closes h e) v = subst IsSound e (close-IsSound s v)
Step-IsSound {s} (fires {ms = ms} h e) v = subst IsSound e (fire-IsSound s ms h v)
Step-IsSound {s} (unmounts h e) v = subst IsSound e (closed_phase s.socket)

-- In every reached state, before the cleanup a socket connects or is open, the status says which
-- and no timer waits, or the status is closed and a timer of one to thirty seconds waits; after
-- the cleanup no timer waits and no socket connects or is open.
pub reached-IsSound : {status : Status} {s : Link} → Run status s → IsSound s
unfolding start
reached-IsSound begins = (refl, refl)
reached-IsSound (goes_on r e) = Step-IsSound e (reached-IsSound r)

-- What the cleanup leaves.
abbrev pub SameAfter : Link → Link → Type 0
SameAfter s s' =
    (s'.dead ≡ true) × (s'.status ≡ s.status) × (s'.attempts ≡ s.attempts) × (s'.timer ≡ none)

if-SameAfter :
    (b : Bool) (s t u : Link) → b ≡ true → SameAfter s t → SameAfter s (if b then t else u)
if-SameAfter true s t u e v = v
if-SameAfter false s t u e v = cc

ended_timer : (p : Phase) (timer : Option ℕ) → Ended p timer → timer ≡ none
ended_timer gone timer v = v
ended_timer closing timer v = v
ended_timer pending timer v = absurd v
ended_timer live timer v = absurd v

Step-after : {s s' : Link} → s.dead ≡ true → Step s s' → Ended s.socket s.timer → SameAfter s s'
unfolding on_close
Step-after {s} d (opens h e) v = absurd (subst (λ p. Ended p s.timer) h v)
Step-after {s} d (receives h e) v =
    subst (SameAfter s) e (d, refl, refl, ended_timer s.socket s.timer v)
Step-after {s} d (closes h e) v = subst (SameAfter s) e (
    if-SameAfter s.dead s (record s { socket = gone })
      (record s {
        socket = gone;
        status = closed;
        attempts = s.attempts + 1;
        timer = some (delay s.attempts);
      })
      d (d, refl, refl, ended_timer s.socket s.timer v))
Step-after {s} d (fires {ms = ms} h e) v = absurd (no_timer s.socket s.timer ms v h)
Step-after {s} d (unmounts h e) v = cc

-- After the cleanup of a reached state no step makes an attempt or changes the status.
pub dead_stays :
    {status : Status} {s s' : Link} → Run status s → s.dead ≡ true → Step s s' → SameAfter s s'
dead_stays {s = s} r d e =
    Step-after d e (subst (λ b. Sound b s.socket s.status s.timer) d (reached-IsSound r))
