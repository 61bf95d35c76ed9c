-- ===== src/Outbox/Backoff.antt =====
-- The retry table: attempts wait longer and longer, up to the cap.
use employee_monitoring_app.Prelude.{ℕ, min, ◌-◌, zero, suc, ◌≤◌, ◌≡◌, refl, some, arith}
use employee_monitoring_app.Outbox.{backoff_for_attempt}

backoff_cap : (n : ℕ) → backoff_for_attempt (suc (suc (suc (suc (suc n))))) ≡ some 900
unfolding backoff_for_attempt
backoff_cap n = let e : min (suc (suc (suc (suc (suc n))))) 5 - 1 ≡ 4 = omega arith in rw e refl

-- Every attempt from the first on has a delay: the table is never read past its end. The next
-- attempt waits at least as long, and none waits longer than 900 seconds.
pub backoff_mono :
    (n : ℕ)
    → (d e : ℕ) × (backoff_for_attempt (suc n) ≡ some d)
      × (backoff_for_attempt (suc (suc n)) ≡ some e)
      × (d ≤ e)
      × (e ≤ 900)
unfolding backoff_for_attempt
backoff_mono zero = (0, 30, refl, refl, omega arith, omega arith)
backoff_mono (suc zero) = (30, 120, refl, refl, omega arith, omega arith)
backoff_mono (suc (suc zero)) = (120, 300, refl, refl, omega arith, omega arith)
backoff_mono (suc (suc (suc zero))) = (300, 900, refl, refl, omega arith, omega arith)
backoff_mono (suc (suc (suc (suc n)))) =
    (900, 900, backoff_cap n, backoff_cap (suc n), omega arith, omega arith)
