-- ===== src/Platform/Retry.antt =====
-- `retryDelay`, which server/internal/platform/outbox/jobs.go and webhooks/jobs.go each declare, and
-- `durationSeconds`. A `time.Duration` is an int64 number of nanoseconds, here in two's complement: a
-- number below 2^64. Attempts are counted from 1; a count below 1 is 0 and runs no round.
pub mod Bounds
use monogo.Base.{ℕ, zero, suc, ◌+◌, ◌-◌, ◌*◌, ◌/◌, ◌%◌, ◌^◌, Bool, true, false, ltb, if◌then◌else◌}

-- `a < b` on int64.
unfoldable pub below : ℕ → ℕ → Bool
below a b = ltb ((a + 2 ^ 63) % 2 ^ 64) ((b + 2 ^ 63) % 2 ^ 64)

-- `delay *= 2`.
unfoldable pub double : ℕ → ℕ
double delay = (delay * 2) % 2 ^ 64

-- The test past the loop.
unfoldable pub cap : ℕ → ℕ → ℕ
cap delay max_delay = if below max_delay delay then max_delay else delay

-- The loop, with the rounds that `attempt` still allows.
unfoldable pub retry_loop : ℕ → ℕ → ℕ → ℕ
retry_loop zero delay max_delay = cap delay max_delay
retry_loop (suc rounds) delay max_delay =
    let rest = retry_loop rounds (double delay) max_delay in
    if below delay max_delay
    then if below (double delay) max_delay then rest else max_delay
    else cap delay max_delay

unfoldable pub retry_delay : ℕ → ℕ → ℕ → ℕ
retry_delay base_delay max_delay attempt = retry_loop (attempt - 1) base_delay max_delay

-- `durationSeconds`, at a duration that is not negative.
unfoldable pub duration_seconds : ℕ → ℕ
duration_seconds v =
    let seconds = v / 1_000_000_000 in
    if ltb seconds 1 then 1 else if ltb 2_147_483_647 seconds then 2_147_483_647 else seconds
