-- ===== src/Socket/Backoff.antt =====
-- The delay before an attempt to connect again.
use vps_pilot.Base.{ℕ, zero, suc, ◌*◌, ◌^◌, ◌≤◌, ◌≡◌, refl, arith, ltb, if◌then◌else◌}
use vps_pilot.Socket.{max_backoff_ms, delay}

pow-pos : (n : ℕ) → 1 ≤ 2 ^ n
pow-pos zero = omega arith
pow-pos (suc n) = omega (arith, pow-pos n)

-- The delay lies between a second and half a minute.
pub delay_bounds : (n : ℕ) → (1000 ≤ delay n) × (delay n ≤ max_backoff_ms)
unfolding delay
delay_bounds n = ground (arith, pow-pos n)

pow-large : (n : ℕ) → 32 ≤ 2 ^ suc (suc (suc (suc (suc n))))
pow-large zero = omega arith
pow-large (suc n) = omega (arith, pow-large n)

-- The delay doubles from a second to sixteen, and is half a minute from the sixth attempt in a row on.
delay_exact : (n : ℕ) → delay n ≡ (if ltb n 5 then 1000 * 2 ^ n else max_backoff_ms)
unfolding delay
delay_exact zero = refl
delay_exact (suc zero) = refl
delay_exact (suc (suc zero)) = refl
delay_exact (suc (suc (suc zero))) = refl
delay_exact (suc (suc (suc (suc zero)))) = refl
delay_exact (suc (suc (suc (suc (suc n))))) = ground (arith, pow-large n)
