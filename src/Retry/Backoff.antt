-- ===== src/Retry/Backoff.antt =====
-- delivery-service/internal/retry/backoff.go. A float64 product of an int64 and a power of two is
-- exact, and so is its minimum with an int64 below 2^53; the jitter is kept as a fraction and cut
-- off once, where time.Duration(base) cuts it off. A MaxDelayMS that is not positive is 0 here;
-- without a cap the code's float64 may leave the range of time.Duration, which is not modelled.
use hookyard.Base.{ℕ, ◌+◌, ◌-◌, ◌*◌, ◌/◌, ◌^◌, Bytes, bytes, bytes_eq, ◌&&◌, ltb, if◌then◌else◌}

pub record Policy : Type 0 where
  pub backoff_type : Bytes
  pub initial_delay_ms : ℕ
  pub max_delay_ms : ℕ
  pub jitter_percent : ℕ

-- The range of rand.Float64(): 53 random bits.
abbrev pub rand_range : ℕ
rand_range = 2 ^ 53

abbrev pub at_least_one : ℕ → ℕ
at_least_one n = if ltb n 1 then 1 else n

-- The switch on BackoffType; `default` is exponential.
unfoldable pub backoff : Policy → ℕ → ℕ
backoff p n =
    if bytes_eq p.backoff_type (bytes "linear")
    then p.initial_delay_ms * n
    else p.initial_delay_ms * 2 ^ (n - 1)

unfoldable pub capped : Policy → ℕ → ℕ
capped p base = if ltb 0 p.max_delay_ms && ltb p.max_delay_ms base then p.max_delay_ms else base

-- base + (r / 2^53 * 2 - 1) * (base * percent / 100), and 0 where that is negative.
unfoldable pub jittered : Policy → ℕ → ℕ → ℕ
jittered p r base =
    if ltb 0 p.jitter_percent
    then (base * (100 * rand_range + 2 * r * p.jitter_percent)
        - base * (rand_range * p.jitter_percent))
      / (100 * rand_range)
    else base

-- The delay in milliseconds before the attempt after the given one.
unfoldable pub next_delay_ms : Policy → ℕ → ℕ → ℕ
unfolding backoff capped jittered
next_delay_ms p n r = jittered p r (capped p (backoff p (at_least_one n)))

-- NextDelay: a time.Duration in nanoseconds.
unfoldable pub next_delay : Policy → ℕ → ℕ → ℕ
unfolding next_delay_ms
next_delay p n r = next_delay_ms p n r * 1_000_000
