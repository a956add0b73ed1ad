-- ===== src/Retry.antt =====
-- delivery-service/internal/retry/backoff.go, with the float64 values as exact fractions. A value of
-- rand.Float64() is `r / 2^53` with `r < 2^53`; delays are milliseconds until the last step.
pub mod Bounds
pub mod Backoff
