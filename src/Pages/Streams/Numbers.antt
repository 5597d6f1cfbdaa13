-- ===== src/Pages/Streams/Numbers.antt =====
-- pages/Events.tsx: the events that are kept and the numbers that key their rows.
use vps_pilot.Base.{
  ℕ, zero, suc, ◌-◌, ◌≤◌, ◌<◌, Bool, true, false, List, [], ◌∷◌, ◌++◌, arith, ltb, length, All,
  All-append, Bool-cases, inl, inr,
}
use vps_pilot.Base.Scan.{drop, take_last}
use vps_pilot.Pages.Streams.{DockerEvent, EventEntry, last_500, EventsPage, on_docker_event}
use vps_pilot.Pages.Streams.Windows.{length-drop}

-- The numbers of the entries are below n.
abbrev Below : ℕ → List EventEntry → Type 0
Below n es = All (λ e. e.seq < n) es

-- Each entry has a smaller number than those behind it.
abbrev Increasing : List EventEntry → Type 0
Increasing [] = Unit
Increasing (e ∷ es) = All (λ later. e.seq < later.seq) es × Increasing es

abbrev pub IsKept : EventsPage → Type 0
IsKept p = Increasing p.events × Below p.next_seq p.events × (length p.events ≤ 500)

drop-All : (P : EventEntry → Type 0) (n : ℕ) (es : List EventEntry) → All P es → All P (drop n es)
unfolding drop
drop-All P zero es h = h
drop-All P (suc n) [] h = tt
drop-All P (suc n) (e ∷ es) (h, hs) = drop-All P n es hs

drop-Increasing : (n : ℕ) (es : List EventEntry) → Increasing es → Increasing (drop n es)
unfolding drop
drop-Increasing zero es h = h
drop-Increasing (suc n) [] h = tt
drop-Increasing (suc n) (e ∷ es) (h, hs) = drop-Increasing n es hs

Below-suc : (n : ℕ) (es : List EventEntry) → Below n es → Below (suc n) es
Below-suc n [] h = tt
Below-suc n (e ∷ es) (h, hs) = (omega arith, Below-suc n es hs)

snoc-Increasing :
    (es : List EventEntry) (e : EventEntry)
    → Increasing es
    → Below e.seq es
    → Increasing (es ++ e ∷ [])
snoc-Increasing [] e h k = (tt, tt)
snoc-Increasing (d ∷ es) e (h, hs) (k, ks) =
    (All-append (λ later. d.seq < later.seq) es (e ∷ []) h (k, tt), snoc-Increasing es e hs ks)

last_500-IsKept :
    (es : List EventEntry) (n : ℕ)
    → Increasing es
    → Below n es
    → IsKept (record { events = last_500 es; next_seq = n })
unfolding take_last
last_500-IsKept es n h k = elim (Bool-cases (ltb 500 (length es))) [
  | inl t ↦ rw t (
    drop-Increasing (length es - 500) es h,
    drop-All (λ e. e.seq < n) (length es - 500) es k,
    omega (arith, length-drop (length es - 500) es),
  )
  | inr f ↦ rw f (h, k, ground arith)
]

on_docker_event-IsKept :
    (paused : Bool) (msg : DockerEvent) (p : EventsPage)
    → IsKept p
    → IsKept (on_docker_event paused msg p)
unfolding on_docker_event
on_docker_event-IsKept true msg p h = h
on_docker_event-IsKept false msg p (h, k, l) =
    let entry : EventEntry = record { event = msg; seq = p.next_seq } in
    last_500-IsKept (p.events ++ entry ∷ []) (suc p.next_seq) (snoc-Increasing p.events entry h k) (
      All-append (λ e. e.seq < suc p.next_seq) p.events (entry ∷ [])
        (Below-suc p.next_seq p.events k) (omega arith, tt))

-- What happens to the page: an event, while it is paused or not, or the button "Clear".
pub data PageEvent : Type 0 where
  arrives : Bool → DockerEvent → PageEvent
  clears : PageEvent

unfoldable page_event : PageEvent → EventsPage → EventsPage
unfolding on_docker_event
page_event (arrives paused msg) p = on_docker_event paused msg p
page_event clears p = record p { events = [] }

unfoldable pub page_events : List PageEvent → EventsPage → EventsPage
unfolding page_event
page_events [] p = p
page_events (e ∷ es) p = page_events es (page_event e p)

page_event-IsKept : (e : PageEvent) (p : EventsPage) → IsKept p → IsKept (page_event e p)
unfolding page_event
page_event-IsKept (arrives paused msg) p h = on_docker_event-IsKept paused msg p h
page_event-IsKept clears p h = (tt, tt, omega arith)

page_events-from : (es : List PageEvent) (p : EventsPage) → IsKept p → IsKept (page_events es p)
unfolding page_events
page_events-from [] p h = h
page_events-from (e ∷ es) p h = page_events-from es (page_event e p) (page_event-IsKept e p h)

-- Whatever arrives and however often the page is cleared, at most 500 events are shown, and the
-- numbers that key their rows increase and are below the next one.
pub page_events-IsKept :
    (es : List PageEvent) → IsKept (page_events es (record { events = []; next_seq = 0 }))
page_events-IsKept es =
    page_events-from es (record { events = []; next_seq = 0 }) (tt, tt, omega arith)
