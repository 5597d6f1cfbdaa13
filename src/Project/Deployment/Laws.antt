-- ===== src/Project/Deployment/Laws.antt =====
-- What a socket that was given up does to the deployment that runs after it.
use vps_pilot.Base.{ℕ, ◌+◌, ◌≡◌, ◌≢◌, refl, true, false, some, arith}
use vps_pilot.Project.Deployment.{Action, Deployment, start, on_close, cancel}

-- A deployment that is started after one that was cancelled runs on its own socket, and counts as
-- ended when the first socket closes, which the cancellation makes it do later.
stale_close :
    (a b : Action) (d : Deployment) (first : ℕ)
    → (start a d).ws ≡ some first
    → ((start b (cancel (start a d))).deploying ≡ true)
      × ((start b (cancel (start a d))).ws ≢ some first)
      × ((on_close first (start b (cancel (start a d)))).deploying ≡ false)
      × ((on_close first (start b (cancel (start a d)))).ws ≡ (start b (cancel (start a d))).ws)
unfolding start cancel on_close
stale_close a b d first h =
    (refl, (λ (e : some (d.made + 1) ≡ some first). ground arith), refl, refl)
