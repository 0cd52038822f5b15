-- ===== src/Backoff.antt =====
-- The durations of internal/service/orchestrator: retryDelay and maxRetryBackoff of retry.go,
-- pollingInterval and millisUntil of orchestrator.go. A time.Duration is an int64 of nanoseconds,
-- held as its bit pattern below 2 ^ 64, so that products wrap as they do in Go.
pub mod Bounds
use symphony_go.Prelude.{
  ℕ, zero, suc, ◌+◌, ◌-◌, ◌^◌, is_negative, ◌*◌, ◌/◌, ℤ, is_positive, to_nat, word, word_gt, Option,
  none, some, ltb, leb, ◌==◌, ◌||◌, if◌then◌else◌,
}
use symphony_go.Domain.{Config}

pub data RetryReason : Type 0 where
  continuation failure : RetryReason

abbrev pub second : ℕ
second = 1000000000

abbrev pub millisecond : ℕ
millisecond = 1000000

-- `time.Duration(ms) * time.Millisecond`, for an `ms` that is positive.
abbrev pub from_millis : ℤ → ℕ
from_millis ms = word (to_nat ms * millisecond)

unfoldable pub max_retry_backoff : Option Config → ℕ
max_retry_backoff none = 300 * second
max_retry_backoff (some c) =
    if is_positive c.agent.max_retry_backoff_ms
    then from_millis c.agent.max_retry_backoff_ms
    else 300 * second

-- `for i := 1; i < attempt; i++ { delay *= 2 }`, by the number of rounds.
unfoldable pub doubled : ℕ → ℕ → ℕ
doubled zero delay = delay
doubled (suc rounds) delay = doubled rounds (word (delay * 2))

unfoldable pub failure_delay : ℕ → ℕ → ℕ
failure_delay max_backoff attempt =
    let from = if ltb attempt 1 then 1 else attempt in
    let delay = doubled (from - 1) (10 * second) in
    if word_gt delay max_backoff then max_backoff else delay

unfoldable pub retry_delay : Option Config → RetryReason → ℕ → ℕ
unfolding failure_delay
retry_delay config continuation attempt = second
retry_delay config failure attempt = failure_delay (max_retry_backoff config) attempt

unfoldable pub polling_interval : Option Config → ℕ
polling_interval none = 5 * second
polling_interval (some c) =
    if is_positive c.interval_ms then from_millis c.interval_ms else 5 * second

-- Times are nanoseconds since the zero time.
unfoldable pub millis_until : ℕ → ℕ → ℕ
millis_until now target = if target == 0 || leb target now then 0 else (target - now) / millisecond

-- `now.Add(delay)`: a delay with the sign bit set lies in the past.
unfoldable pub add_delay : ℕ → ℕ → ℕ
add_delay now delay = if is_negative delay then now - (2 ^ 64 - delay) else now + delay
