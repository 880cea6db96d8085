-- ===== src/Errors/Laws.antt =====
-- The backoff between retries (internal/controller/common.go).
use atlas_operator.Prelude.{ℕ, suc, ◌+◌, ◌*◌, ◌<◌, ◌≡◌, arith}
use atlas_operator.Errors.{backoff_delay_at, retry_duration}

-- The backoff is linear as long as it fits the 64 bits of a duration: one more failure waits five
-- seconds longer, up to 1,844,674,406 failures.
backoff_delay_at-suc :
    (n : ℕ)
    → n < 1_844_674_406
    → (backoff_delay_at (suc n) ≡ backoff_delay_at n + retry_duration)
      × (backoff_delay_at n ≡ n * retry_duration)
unfolding backoff_delay_at
backoff_delay_at-suc n h = omega arith
