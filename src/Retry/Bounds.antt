-- ===== src/Retry/Bounds.antt =====
-- Bounds of the delays of delivery-service/internal/retry/backoff.go.
use hookyard.Base.{
  ℕ, suc, ◌+◌, ◌-◌, ◌*◌, ◌/◌, ◌^◌, ◌≤◌, ◌<◌, ◌≡◌, refl, ap, bytes, bytes_eq, ltb, Bool-cases, inl,
  inr, arith,
}
use native.Mathlib.Nat.{mul-le-mul_left, mul-le-mul_right, pow-le-pow_right}
use native.Mathlib.Omega.{pow_step}
use hookyard.Retry.Backoff.{
  Policy, rand_range, at_least_one, backoff, capped, jittered, next_delay_ms,
}

spread :
    (j r base : ℕ)
    → base * (r * j) ≤ base * (rand_range * j)
    → base * j ≤ base * 100
    → base * (100 - j) + base * j ≡ base * 100
    → let delay =
        (base * (100 * rand_range + 2 * r * j) - base * (rand_range * j)) / (100 * rand_range) in
      (100 * delay ≤ base * (100 + j)) × (base * (100 - j) < 100 * (delay + 1))
spread j r base h k e = omega arith

exact :
    (j base : ℕ) → j ≡ 0 → (100 * base ≤ base * (100 + j)) × (base * (100 - j) < 100 * (base + 1))
exact j base e = rw e (omega arith)

-- The jitter moves a delay by at most its percentage, up or down.
jittered_bounds :
    (p : Policy) (r base : ℕ)
    → r < rand_range
    → p.jitter_percent ≤ 100
    → (100 * jittered p r base ≤ base * (100 + p.jitter_percent))
      × (base * (100 - p.jitter_percent) < 100 * (jittered p r base + 1))
unfolding jittered
jittered_bounds p r base h j = elim (Bool-cases (ltb 0 p.jitter_percent)) [
  | inl some_jitter ↦ rw some_jitter (spread p.jitter_percent r base drawn capped_percent whole)
  | inr no_jitter ↦ rw no_jitter (exact p.jitter_percent base (ground arith))
]
  where
    drawn : base * (r * p.jitter_percent) ≤ base * (rand_range * p.jitter_percent)
    drawn = grind arith

    capped_percent : base * p.jitter_percent ≤ base * 100
    capped_percent = grind arith

    rest : (100 - p.jitter_percent) + p.jitter_percent ≡ 100
    rest = omega arith

    whole : base * (100 - p.jitter_percent) + base * p.jitter_percent ≡ base * 100
    whole = omega (arith, ap (λ t. base * t) rest)

capped_bound : (p : Policy) (base : ℕ) → 0 < p.max_delay_ms → capped p base ≤ p.max_delay_ms
unfolding capped
capped_bound p base h = ground arith

-- With a cap and a jitter of at most a hundred percent, whatever the attempt and the random draw,
-- a delay exceeds the cap by no more than the jitter's share of it, and with no jitter it never
-- exceeds the cap.
pub next_delay_ms-cap :
    (p : Policy) (n r : ℕ)
    → r < rand_range
    → p.jitter_percent ≤ 100
    → 0 < p.max_delay_ms
    → 100 * next_delay_ms p n r ≤ p.max_delay_ms * (100 + p.jitter_percent)
unfolding next_delay_ms
next_delay_ms-cap p n r h j m =
    let base = capped p (backoff p (at_least_one n)) in
    omega (
      arith,
      (jittered_bounds p r base h j).0,
      mul-le-mul_right (100 + p.jitter_percent) (capped_bound p (backoff p (at_least_one n)) m),
    )

backoff_mono : (p : Policy) (m n : ℕ) → m ≤ n → backoff p m ≤ backoff p n
unfolding backoff
backoff_mono p m n h = elim (Bool-cases (bytes_eq p.backoff_type (bytes "linear"))) [
  | inl linear ↦ rw linear (mul-le-mul_left p.initial_delay_ms h)
  | inr other ↦ rw other (
      mul-le-mul_left p.initial_delay_ms
        (pow-le-pow_right {n = 2} (omega arith) {i = m - 1} {j = n - 1} (omega arith)))
]

-- With a cap and no jitter, a later attempt never waits less than an earlier one.
pub next_delay_ms_mono :
    (p : Policy) (m n r r' : ℕ)
    → 0 < p.max_delay_ms
    → p.jitter_percent ≡ 0
    → m ≤ n
    → next_delay_ms p m r ≤ next_delay_ms p n r'
unfolding next_delay_ms jittered capped
next_delay_ms_mono p m n r r' some_cap e h =
    ground (arith, backoff_mono p (at_least_one m) (at_least_one n))

plain :
    (p : Policy) (n r : ℕ)
    → backoff p (suc n) ≤ p.max_delay_ms
    → p.jitter_percent ≡ 0
    → next_delay_ms p (suc n) r ≡ backoff p (suc n)
unfolding next_delay_ms jittered capped
plain p n r c j = ground arith

fixed_step :
    (p : Policy) (n : ℕ)
    → p.backoff_type ≡ bytes "fixed"
    → backoff p (suc (suc n)) ≡ 2 * backoff p (suc n)
unfolding backoff bytes_eq
fixed_step p n f = rw f (omega (arith, ap (λ t. p.initial_delay_ms * t) doubled))
  where
    doubled : 2 ^ (suc (suc n) - 1) ≡ 2 * 2 ^ (suc n - 1)
    doubled =
        let e : suc (suc n) - 1 ≡ suc n = omega arith in
        let e' : suc n - 1 ≡ n = omega arith in rw (e, e') (pow_step 2 n)

fixed_backoff :
    (p : Policy) (n : ℕ)
    → p.backoff_type ≡ bytes "fixed"
    → backoff p (suc n) ≡ p.initial_delay_ms * 2 ^ n
unfolding backoff bytes_eq
fixed_backoff p n f = let e : suc n - 1 ≡ n = omega arith in rw (f, e) refl

-- The endpoint service stores policies of the type "fixed"; the delivery service does not know it.
-- Under such a policy, with no jitter and below the cap, every further attempt waits twice as long.
pub fixed-doubles :
    (p : Policy) (n r r' : ℕ)
    → p.backoff_type ≡ bytes "fixed"
    → p.jitter_percent ≡ 0
    → p.initial_delay_ms * 2 ^ suc n ≤ p.max_delay_ms
    → next_delay_ms p (suc (suc n)) r ≡ 2 * next_delay_ms p (suc n) r'
fixed-doubles p n r r' f j below =
    let next : backoff p (suc (suc n)) ≤ p.max_delay_ms =
      omega (arith, fixed_backoff p (suc n) f) in
    let step : backoff p (suc (suc n)) ≡ 2 * backoff p (suc n) = fixed_step p n f in
    let first : backoff p (suc n) ≤ p.max_delay_ms = omega arith in
    omega (arith, plain p (suc n) r next j, plain p n r' first j)
