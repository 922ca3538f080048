-- ===== src/Queue/Delays.antt =====
-- `retry_delay_seconds`: exponential backoff with a cap.
use agent_coordination.Prelude.{arith, min, refl, suc, zero, ℕ, ◌*◌, ◌≡◌, ◌≤◌}
use agent_coordination.Queue
use native.Mathlib.Nat.{pow-suc}

delay_step :
    (n base_seconds max_seconds : ℕ)
    → Queue.retry_delay_seconds (suc (suc n)) base_seconds max_seconds
      ≡ min (2 * Queue.retry_delay_seconds (suc n) base_seconds max_seconds) max_seconds
unfolding Queue.retry_delay_seconds
delay_step n base_seconds max_seconds = rw (pow-suc 2 n) (omega arith)

-- The delay before the first retry is the base, each later one is twice the one before, and every one
-- is cut off at the maximum; no delay is due before the first attempt. So the delays never fall.
retry_delay_seconds-doubles :
    (n base_seconds max_seconds : ℕ)
    → let delay = λ (attempt : ℕ). Queue.retry_delay_seconds attempt base_seconds max_seconds in
      (delay 0 ≡ 0)
      × (delay 1 ≡ min base_seconds max_seconds)
      × (delay (suc (suc n)) ≡ min (2 * delay (suc n)) max_seconds)
      × (delay n ≤ delay (suc n))
      × (delay n ≤ max_seconds)
unfolding Queue.retry_delay_seconds
retry_delay_seconds-doubles zero base_seconds max_seconds =
    (refl, omega arith, delay_step 0 base_seconds max_seconds, omega arith, omega arith)
retry_delay_seconds-doubles (suc n) base_seconds max_seconds = (
  refl,
  omega arith,
  delay_step (suc n) base_seconds max_seconds,
  omega (arith, delay_step n base_seconds max_seconds),
  omega arith,
)
