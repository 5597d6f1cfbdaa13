-- ===== src/Pages/Streams/Windows.antt =====
-- pages/Logs.tsx, pages/Events.tsx: the newest lines and events are kept.
use vps_pilot.Base.{
  ℕ, zero, suc, ◌+◌, ◌-◌, ◌≤◌, String, ◌≡◌, refl, sym, ap, ◌∙◌, Bool, not, ◌&&◌, List, [], ◌∷◌,
  ◌++◌, ◌==◌, if◌then◌else◌, arith, length, Bool-cases, inl, inr,
}
use vps_pilot.Base.Scan.{drop, take_last}
use vps_pilot.Pages.Streams.{Message, append_line, on_log}

module _ {A : Type 0} where
  length-snoc : (xs : List A) (x : A) → length (xs ++ x ∷ []) ≡ suc (length xs)
  length-snoc [] x = refl
  length-snoc (y ∷ xs) x = ap suc (length-snoc xs x)

  pub length-drop : (n : ℕ) (xs : List A) → length (drop n xs) ≡ length xs - n
  unfolding drop
  length-drop zero xs = omega arith
  length-drop (suc n) [] = omega arith
  length-drop (suc n) (x ∷ xs) = omega (arith, length-drop n xs)

  drop-nil : (n : ℕ) → ◌≡◌ {A = List A} (drop n []) []
  unfolding drop
  drop-nil zero = refl
  drop-nil (suc n) = refl

  drop-drop : (m n : ℕ) (xs : List A) → drop m (drop n xs) ≡ drop (n + m) xs
  unfolding drop
  drop-drop m zero xs = ap (λ k. drop k xs) (omega arith)
  drop-drop m (suc n) [] = drop-nil m ∙ sym (drop-nil (suc n + m))
  drop-drop m (suc n) (x ∷ xs) =
      let sums : suc (n + m) ≡ suc n + m = omega arith in
      drop-drop m n xs ∙ ap (λ k. drop k (x ∷ xs)) sums

  drop-snoc :
      (n : ℕ) (xs : List A) (x : A) → n ≤ length xs → drop n xs ++ x ∷ [] ≡ drop n (xs ++ x ∷ [])
  unfolding drop
  drop-snoc zero xs x h = refl
  drop-snoc (suc n) [] x h = absurd (omega arith)
  drop-snoc (suc n) (y ∷ xs) x h = drop-snoc n xs x (omega arith)

  -- What is appended to the last n makes the last n + 1.
  take_last-snoc :
      (n : ℕ) (xs : List A) (x : A) → take_last n xs ++ x ∷ [] ≡ take_last (suc n) (xs ++ x ∷ [])
  unfolding take_last
  take_last-snoc n xs x =
      drop-snoc (length xs - n) xs x (omega arith)
      ∙ ap (λ k. drop k (xs ++ x ∷ [])) (omega (arith, length-snoc xs x))

  take_last-again : (n : ℕ) (xs : List A) → take_last n (take_last (suc n) xs) ≡ take_last n xs
  unfolding take_last
  take_last-again n xs =
      drop-drop (length (drop (length xs - suc n) xs) - n) (length xs - suc n) xs
      ∙ ap (λ k. drop k xs) (omega (arith, length-drop (length xs - suc n) xs))

-- What happens to a page of logs: a message, while it is paused or not, or the button "Clear".
pub data LogEvent : Type 0 where
  message : Bool → Message String → LogEvent
  clear : LogEvent

unfoldable log_event : LogEvent → List String → List String
unfolding on_log
log_event (message paused msg) lines = on_log paused msg lines
log_event clear lines = []

unfoldable pub log_events : List LogEvent → List String → List String
unfolding log_event
log_events [] lines = lines
log_events (e ∷ es) lines = log_events es (log_event e lines)

-- All lines that came since the last "Clear", while the page was not paused.
unfoldable pub received : List LogEvent → List String → List String
received [] all_lines = all_lines
received (message paused msg ∷ es) all_lines =
    received es
      (if msg.kind == "log" && not paused then all_lines ++ msg.content ∷ [] else all_lines)
received (clear ∷ es) all_lines = received es []

append_line-window :
    (lines : List String) (line : String)
    → append_line 2000 (take_last 2001 lines) line ≡ take_last 2001 (lines ++ line ∷ [])
unfolding append_line
append_line-window lines line =
    ap (λ xs. xs ++ line ∷ []) (take_last-again 2000 lines) ∙ take_last-snoc 2000 lines line

window-from :
    (es : List LogEvent) (lines : List String)
    → log_events es (take_last 2001 lines) ≡ take_last 2001 (received es lines)
unfolding log_events log_event on_log received
window-from [] lines = refl
window-from (clear ∷ es) lines = window-from es []
window-from (message paused msg ∷ es) lines = elim (Bool-cases (msg.kind == "log" && not paused)) [
  | inl t ↦ rw t (
      ap (log_events es) (append_line-window lines msg.content)
      ∙ window-from es (lines ++ msg.content ∷ []))
  | inr f ↦ rw f (window-from es lines)
]

-- A page of logs shows the last 2001 of the lines that came since it was cleared, without those
-- that came while it was paused.
pub log_events-window : (es : List LogEvent) → log_events es [] ≡ take_last 2001 (received es [])
unfolding take_last
log_events-window es = window-from es []
