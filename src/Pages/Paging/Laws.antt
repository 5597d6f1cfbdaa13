-- ===== src/Pages/Paging/Laws.antt =====
-- pages/AuditLogs.tsx: which pages can be reached.
use vps_pilot.Base.{
  ℕ, zero, suc, ◌+◌, ◌-◌, ◌*◌, ◌/◌, ◌%◌, ◌≤◌, ◌<◌, ◌≡◌, refl, ap, ◌∙◌, List, [], ◌∷◌, leb, arith,
  Bool-cases, inl, inr,
}
use vps_pilot.Pages.Paging.{pages, current_page, has_buttons, previous, next}

pub data Turn : Type 0 where
  back forth : Turn

unfoldable turn : ℕ → Turn → ℕ → ℕ
unfolding previous next
turn total back offset = previous total offset
turn total forth offset = next total offset

unfoldable pub turns : ℕ → List Turn → ℕ → ℕ
unfolding turn
turns total [] offset = offset
turns total (t ∷ ts) offset = turns total ts (turn total t offset)

-- The page exists: its offset is a multiple of the page's size below the total, and there is a page
-- for it.
abbrev pub IsPage : ℕ → ℕ → Type 0
IsPage total offset =
    (offset % 50 ≡ 0)
    × (offset < total)
    × (1 ≤ current_page offset)
    × (current_page offset ≤ pages total)

IsPage-of : (total offset : ℕ) → offset % 50 ≡ 0 → offset < total → IsPage total offset
unfolding current_page pages
IsPage-of total offset h k = (h, k, omega arith, omega arith)

turn-IsPage :
    (total : ℕ) (t : Turn) (offset : ℕ) → IsPage total offset → IsPage total (turn total t offset)
unfolding turn previous next
turn-IsPage total back offset (h, k, l, m) = elim (Bool-cases (has_buttons total)) [
  | inl t ↦ rw t (IsPage-of total (offset - 50) (omega arith) (omega arith))
  | inr f ↦ rw f (h, k, l, m)
]
turn-IsPage total forth offset (h, k, l, m) = elim (Bool-cases (has_buttons total)) [
  | inl t ↦ elim (Bool-cases (leb total (offset + 50))) [
    | inl last ↦ rw (t, last) (h, k, l, m)
    | inr more ↦ rw (t, more) (IsPage-of total (offset + 50) (omega arith) (ground arith))
  ]
  | inr f ↦ rw f (h, k, l, m)
]

-- For a log that is not empty, after any presses of the two buttons the offset is a multiple of 50
-- below the total, and the number of the page is between 1 and the number of pages.
pub turns-IsPage : (total : ℕ) (ts : List Turn) → 0 < total → IsPage total (turns total ts 0)
unfolding turns
turns-IsPage total ts h = from ts 0 (IsPage-of total 0 refl h)
  where
    from :
        (ts : List Turn) (offset : ℕ) → IsPage total offset → IsPage total (turns total ts offset)
    from [] offset k = k
    from (t ∷ ts) offset k = from ts (turn total t offset) (turn-IsPage total t offset k)

-- n presses of the button for the next page.
unfoldable pub forth_times : ℕ → ℕ → ℕ → ℕ
unfolding next
forth_times total zero offset = offset
forth_times total (suc n) offset = forth_times total n (next total offset)

next-page : (total k n : ℕ) → k + suc n < pages total → next total (50 * k) ≡ 50 * suc k
unfolding next pages
next-page total k n h = elim (Bool-cases (has_buttons total)) [
  | inl t ↦ elim (Bool-cases (leb total (50 * k + 50))) [
    | inl last ↦ absurd (ground arith)
    | inr more ↦ rw (t, more) (omega arith)
  ]
  | inr f ↦ absurd (ground arith)
]

forth_times-pages :
    (total n k : ℕ) → k + n < pages total → forth_times total n (50 * k) ≡ 50 * (k + n)
unfolding forth_times
forth_times-pages total zero k h = omega arith
forth_times-pages total (suc n) k h =
    ap (forth_times total n) (next-page total k n h)
    ∙ forth_times-pages total n (suc k) (omega arith)
    ∙ omega arith

-- Each page of the log is reached: page n + 1, if there is one, by n presses of the button for the
-- next page.
pub forth-reaches :
    (total n : ℕ) → suc n ≤ pages total → current_page (forth_times total n 0) ≡ suc n
unfolding current_page
forth-reaches total n h =
    ap (λ offset. offset / 50 + 1) (forth_times-pages total n 0 (omega arith)) ∙ omega arith
