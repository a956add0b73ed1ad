-- ===== src/Outbox/Delays.antt =====
-- The delays of endpoint-service/internal/outbox/relay.go.
use hookyard.Base.{ℕ, ◌-◌, ◌*◌, ◌^◌, ◌≤◌, ltb, if◌then◌else◌, arith}
use native.Mathlib.Nat.{pow-le-pow_right}
use hookyard.Outbox.Relay.{retry_delay}

bounded :
    (x y : ℕ)
    → 1 ≤ x
    → x ≤ y
    → let cut = λ (n : ℕ). (if ltb 300 n then 300 else n) * 1_000_000_000 in
      (1_000_000_000 ≤ cut x) × (cut x ≤ cut y) × (cut y ≤ 300_000_000_000)
bounded x y h k = ground arith

-- A message that cannot be published is tried again after at least a second and at most five minutes,
-- and after more attempts never sooner than after fewer.
pub retry_delay-bounds :
    (a b : ℕ)
    → a ≤ b
    → (1_000_000_000 ≤ retry_delay a)
      × (retry_delay a ≤ retry_delay b)
      × (retry_delay b ≤ 300_000_000_000)
unfolding retry_delay
retry_delay-bounds a b le =
    bounded (2 ^ exponent a) (2 ^ exponent b)
      (pow-le-pow_right {n = 2} (omega arith) {i = 0} {j = exponent a} (omega arith))
      (pow-le-pow_right {n = 2} (omega arith) {i = exponent a} {j = exponent b} (ground arith))
  where
    exponent : ℕ → ℕ
    exponent n = (if ltb n 1 then 1 else n) - 1
