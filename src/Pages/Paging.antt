-- ===== src/Pages/Paging.antt =====
-- pages/AuditLogs.tsx: the pages of the audit log.
pub mod Laws
use vps_pilot.Base.{
  ℕ, ◌+◌, ◌-◌, ◌/◌, String, ◌<>◌, Bool, true, false, List, [], ◌∷◌, eqb, ltb, leb, if◌then◌else◌,
}
use vps_pilot.Base.Scan.{starts_with}
use vps_pilot.Js.{show_ℕ}
use vps_pilot.Client.{Call, get}

-- `PAGE_SIZE`
abbrev page_size : ℕ
page_size = 50

data Category : Type 0 where
  auth project container file other : Category

-- `actionCategory`
unfoldable action_category : String → Category
unfolding starts_with
action_category action =
    if starts_with "auth." action
    then auth
    else if starts_with "container." action
    then container
    else if starts_with "project.file." action
    then file
    else if starts_with "project." action
    then project
    else other

-- The request of the query.
unfoldable audit_call : ℕ → Call
unfolding get show_ℕ
audit_call offset = get ("/api/audit?limit=" <> (show_ℕ page_size <> ("&offset=" <> show_ℕ offset)))

-- `Math.ceil(total / PAGE_SIZE)`
unfoldable pub pages : ℕ → ℕ
pages total = (total + 49) / page_size

-- `Math.floor(offset / PAGE_SIZE) + 1`
unfoldable pub current_page : ℕ → ℕ
current_page offset = offset / page_size + 1

-- The buttons are there for more than one page; one of them is disabled at each end.
abbrev pub has_buttons : ℕ → Bool
has_buttons total = ltb 1 (pages total)

-- `setOffset(Math.max(0, offset - PAGE_SIZE))`
unfoldable pub previous : ℕ → ℕ → ℕ
unfolding pages
previous total offset = if has_buttons total then offset - page_size else offset

-- `setOffset(offset + PAGE_SIZE)`, unless it is disabled.
unfoldable pub next : ℕ → ℕ → ℕ
unfolding pages
next total offset =
    if has_buttons total
    then if leb total (offset + page_size) then offset else offset + page_size
    else offset
