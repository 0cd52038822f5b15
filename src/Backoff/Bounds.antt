-- ===== src/Backoff/Bounds.antt =====
-- How long a failed issue waits: exponential and capped up to attempt 30, where doubling is exact;
-- beyond that the doubling of the int64 overflows.
use native.Mathlib.Nat.{
  mul_assoc, mul_comm, pow-suc, one-le-pow, pow-le-pow_right, zero-add, suc-add,
}
use symphony_go.Prelude.{
  ℕ, zero, suc, ◌+◌, ◌-◌, ◌*◌, ◌^◌, ◌≤◌, ◌<◌, ◌≡◌, refl, Option, word, word_gt, is_negative, true,
  arith, ltb, if◌then◌else◌, ◌∙◌,
}
use Prim.Native.Nat.{min}
use symphony_go.Domain.{Config}
use symphony_go.Backoff.{
  continuation, failure, second, max_retry_backoff, doubled, failure_delay, retry_delay,
}

-- Doubling is exact while the result fits in 63 bits.
scaled : (d n : ℕ) → d * 2 * 2 ^ n ≡ d * 2 ^ suc n
scaled d n = rw (pow-suc 2 n, mul_assoc d 2 (2 ^ n), mul_comm 2 (2 ^ n))

double-le : (d n : ℕ) → d * 2 ≤ d * 2 ^ suc n
double-le d n = rw (← scaled d n) (grind (arith, one-le-pow n 2))

doubled-exact : (n d : ℕ) → d * 2 ^ n < 2 ^ 64 → doubled n d ≡ d * 2 ^ n
unfolding doubled
doubled-exact zero d h = omega arith
doubled-exact (suc n) d h =
    let same : word (d * 2) ≡ d * 2 = omega (arith, double-le d n) in
    rw same (doubled-exact n (d * 2) (rw (scaled d n) h) ∙ scaled d n)

doubled-zero : (n : ℕ) → doubled n 0 ≡ 0
unfolding doubled
doubled-zero zero = refl
doubled-zero (suc n) = doubled-zero n

doubled-add : (n m d : ℕ) → doubled (n + m) d ≡ doubled m (doubled n d)
unfolding doubled
doubled-add zero m d = rw zero-add
doubled-add (suc n) m d = rw suc-add (doubled-add n m (word (d * 2)))

-- A delay that is not negative, below 2 ^ 63, is compared as a number.
word_gt-small : (a b : ℕ) → a < 2 ^ 63 → b < 2 ^ 63 → (if word_gt a b then b else a) ≡ min a b
unfolding word_gt
word_gt-small a b h k = ground arith

pow_bound : (n : ℕ) → n ≤ 29 → 2 ^ n ≤ 2 ^ 29
pow_bound n h = pow-le-pow_right (omega arith) h

ten_seconds_bound : (n : ℕ) → n ≤ 29 → 10 * second * 2 ^ n < 2 ^ 63
ten_seconds_bound n h = omega (arith, pow_bound n h)

rounds : (n : ℕ) → (if ltb (suc n) 1 then 1 else suc n) - 1 ≡ n
rounds n = ground arith

failure_delay-exact :
    (max_backoff n : ℕ)
    → n ≤ 29
    → max_backoff < 2 ^ 63
    → failure_delay max_backoff (suc n) ≡ min (10 * second * 2 ^ n) max_backoff
unfolding failure_delay
failure_delay-exact max_backoff n h k =
    let exact : doubled n (10 * second) ≡ 10 * second * 2 ^ n =
      doubled-exact n (10 * second) (omega (arith, ten_seconds_bound n h)) in
    rw (rounds n, exact) (word_gt-small (10 * second * 2 ^ n) max_backoff (ten_seconds_bound n h) k)

-- For the attempts 1 to 30, a failed issue waits ten seconds doubled once for each earlier attempt,
-- capped at the configured backoff, provided that backoff is not negative as an int64. Any
-- continuation waits one second.
pub retry_delay-exact :
    (config : Option Config) (n : ℕ)
    → n ≤ 29
    → max_retry_backoff config < 2 ^ 63
    → (retry_delay config failure (suc n) ≡ min (10 * second * 2 ^ n) (max_retry_backoff config))
      × (retry_delay config continuation (suc n) ≡ second)
unfolding retry_delay
retry_delay-exact config n h k = (failure_delay-exact (max_retry_backoff config) n h k, refl)

overflowed : (k : ℕ) → doubled (54 + k) (10 * second) ≡ 0
unfolding doubled
overflowed k = doubled-add 54 k (10 * second) ∙ doubled-zero k

failure_delay-overflow :
    (max_backoff k : ℕ) → max_backoff < 2 ^ 63 → failure_delay max_backoff (suc (54 + k)) ≡ 0
unfolding failure_delay
failure_delay-overflow max_backoff k h =
    rw (rounds (54 + k), overflowed k) (word_gt-small 0 max_backoff (omega arith) h ∙ omega arith)

-- From attempt 55 on the doubled int64 has wrapped to 0, so a failed issue is retried at once,
-- whatever backoff that is not negative is configured.
pub retry_delay-overflow :
    (config : Option Config) (k : ℕ)
    → max_retry_backoff config < 2 ^ 63
    → retry_delay config failure (suc (54 + k)) ≡ 0
unfolding retry_delay
retry_delay-overflow config k h = failure_delay-overflow (max_retry_backoff config) k h

-- At attempt 31 the delay is negative.
retry_delay-negative :
    (config : Option Config)
    → max_retry_backoff config < 2 ^ 63
    → is_negative (retry_delay config failure 31) ≡ true
unfolding retry_delay failure_delay word_gt doubled
retry_delay-negative config h = ground arith
