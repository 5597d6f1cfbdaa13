-- ===== src/Pages/Metrics.antt =====
-- pages/System.tsx and pages/Dashboard.tsx: the figures that are shown. Percentages are taken as
-- whole numbers.
pub mod Laws
use vps_pilot.Base.{
  ℕ, ◌/◌, ◌%◌, String, ◌<>◌, Bool, true, false, Option, none, some, List, [], ◌∷◌, ◌==◌, eqb, ltb,
  length, if◌then◌else◌,
}
use vps_pilot.Base.Sets
use vps_pilot.Js.{show_ℕ}
use vps_pilot.Pages.Streams.{Message}

-- The days, hours and minutes of `formatUptime`.
abbrev pub days : ℕ → ℕ
days seconds = seconds / 86400

abbrev pub hours : ℕ → ℕ
hours seconds = seconds % 86400 / 3600

abbrev pub minutes : ℕ → ℕ
minutes seconds = seconds % 3600 / 60

-- `formatUptime`
unfoldable format_uptime : ℕ → String
unfolding show_ℕ
format_uptime seconds =
    if ltb 0 (days seconds)
    then show_ℕ (days seconds)
      <> ("d " <> (show_ℕ (hours seconds) <> ("h " <> (show_ℕ (minutes seconds) <> "m"))))
    else if ltb 0 (hours seconds)
    then show_ℕ (hours seconds) <> ("h " <> (show_ℕ (minutes seconds) <> "m"))
    else show_ℕ (minutes seconds) <> "m"

-- The same in `System`, which shows a dash for nothing.
unfoldable system_uptime : ℕ → String
unfolding format_uptime
system_uptime seconds = if ltb 0 seconds then format_uptime seconds else "—"

-- The colour of a bar.
abbrev bar_color : ℕ → String
bar_color pct =
    if ltb 90 pct then "bg-destructive" else if ltb 70 pct then "bg-yellow-500" else "bg-primary"

-- `Math.min(pct, 100)`
abbrev bar_width : ℕ → ℕ
bar_width pct = if ltb 100 pct then 100 else pct

-- The snapshot that is shown: the last one of the socket, or the first of the request.
unfoldable on_metrics : {A : Type 0} → Message A → Option A → Option A
on_metrics msg snap = if msg.kind == "metrics" then some msg.content else snap

-- `snap ?? initial`
abbrev shown_snapshot : {A : Type 0} → Option A → Option A → Option A
shown_snapshot none initial = initial
shown_snapshot (some a) initial = some a

-- `p.cpuCorePercents?.length ?? 0`
abbrev pub cores_of : Option (List ℕ) → ℕ
cores_of none = 0
cores_of (some ps) = length ps

-- `Math.max(a, b)`
abbrev pub larger : ℕ → ℕ → ℕ
larger a b = if ltb a b then b else a

-- `coreCount`, the `reduce` from 0.
unfoldable pub core_count : ℕ → List (Option (List ℕ)) → ℕ
core_count most [] = most
core_count most (p ∷ ps) = core_count (larger most (cores_of p)) ps

-- `toggleCore`
unfoldable toggle_core : String → List String → List String
unfolding Sets.toggle
toggle_core key hidden = Sets.toggle key hidden

-- `tickCount`
abbrev tick_count : String → ℕ
tick_count range = if range == "7d" then 7 else if range == "24h" then 8 else 6
