-- ===== src/Pages/Metrics/Laws.antt =====
-- pages/System.tsx and pages/Dashboard.tsx: the time that is shown, and the cores that are counted.
use vps_pilot.Base.{ℕ, ◌+◌, ◌*◌, ◌≤◌, ◌<◌, Option, List, [], ◌∷◌, arith, All}
use vps_pilot.Pages.Metrics.{days, hours, minutes, cores_of, larger, core_count}

-- The days, hours and minutes that are shown are those of the time: what is left is less than a
-- minute, and hours and minutes are below their bounds.
uptime-parts :
    (seconds : ℕ)
    → (hours seconds < 24)
      × (minutes seconds < 60)
      × (days seconds * 86400 + hours seconds * 3600 + minutes seconds * 60 ≤ seconds)
      × (seconds < days seconds * 86400 + hours seconds * 3600 + minutes seconds * 60 + 60)
uptime-parts seconds = (omega arith, omega arith, omega arith, omega arith)

core_count-from : (ps : List (Option (List ℕ))) (most : ℕ) → most ≤ core_count most ps
unfolding core_count
core_count-from [] most = omega arith
core_count-from (p ∷ ps) most = ground (arith, core_count-from ps (larger most (cores_of p)))

core_count-All :
    (ps : List (Option (List ℕ))) (most : ℕ) → All (λ p. cores_of p ≤ core_count most ps) ps
unfolding core_count
core_count-All [] most = tt
core_count-All (p ∷ ps) most = (
  ground (arith, core_count-from ps (larger most (cores_of p))),
  core_count-All ps (larger most (cores_of p)),
)
