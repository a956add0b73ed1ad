-- ===== src/Settings.antt =====
-- How delivery-service/cmd/server/main.go and endpoint-service/cmd/server/main.go read their
-- settings, and the scheduler that the first makes of them.
use hookyard.Base.{
  ℕ, suc, ◌-◌, ◌*◌, ◌%◌, ltb, ◌<◌, ◌≡◌, refl, sym, ◌≢◌, ap, Bytes, bytes, Option, none, some, List,
  [], ◌∷◌, ◌++◌, ◌==◌, if◌then◌else◌, inl, inr, Bool-cases, ==_iff, ◌∙◌,
}
use hookyard.Base.Int.{ℤ, pos, negsuc}
use hookyard.Base.Atoi.{atoi}
use hookyard.Scheduler.Loop.{Scheduler, new, claim_limit}
use hookyard.Scheduler.Slots.{new-IsLive}

-- os.Getenv: a variable that is not set is empty.
abbrev pub Variables : Type 0
Variables = Bytes → Bytes

-- envString of the delivery service and env of the endpoint service.
unfoldable pub env_string : Variables → Bytes → Bytes → Bytes
env_string vars k fallback = elim (vars k) [ [] ↦ fallback | c ∷ cs ↦ c ∷ cs ]

-- mustEnv, which panics on a variable that is not set.
unfoldable pub must_env : Variables → Bytes → Option Bytes
must_env vars k = elim (vars k) [ [] ↦ none | c ∷ cs ↦ some (c ∷ cs) ]

abbrev number_or : ℤ → Option ℤ → ℤ
number_or fallback none = fallback
number_or fallback (some n) = n

-- envInt
unfoldable pub env_int : Variables → Bytes → ℤ → ℤ
env_int vars k fallback = elim (vars k) [
  | [] ↦ fallback
  | c ∷ cs ↦ number_or fallback (atoi (c ∷ cs))
]

abbrev prepend : ℕ → List Bytes → List Bytes
prepend c [] = (c ∷ []) ∷ []
prepend c (part ∷ parts) = (c ∷ part) ∷ parts

-- strings.Split at the commas.
unfoldable pub split : Bytes → List Bytes
split [] = [] ∷ []
split (c ∷ cs) = let rest = split cs in if c == 44 then [] ∷ rest else prepend c rest

-- splitEnv
unfoldable pub split_env : Variables → Bytes → Bytes → List Bytes
unfolding env_string split
split_env vars k fallback = split (env_string vars k fallback)

-- A duration of a machine integer. One below zero, with which a lease has run out when it is taken,
-- is zero here, since the model's durations are natural numbers.
abbrev duration : ℕ → ℕ
duration d = if ltb d 9_223_372_036_854_775_808 then d else 0

-- time.Duration(leaseSeconds) * time.Second, which wraps around.
abbrev pub seconds : ℤ → ℕ
seconds (pos n) = duration (n * 1_000_000_000 % 18_446_744_073_709_551_616)
seconds (negsuc n) =
    duration (18_446_744_073_709_551_616 - suc n * 1_000_000_000 % 18_446_744_073_709_551_616)

-- The scheduler of the delivery service, on a machine with so many processors.
unfoldable pub configured : ℕ → Variables → Scheduler
unfolding env_int
configured cpus vars =
    new cpus (env_int vars (bytes "DELIVERY_CONCURRENCY") (pos 50))
      (env_int vars (bytes "DELIVERY_BATCH_SIZE") (pos 50))
      (seconds (env_int vars (bytes "DELIVERY_LEASE_SECONDS") (pos 30)))

-- Whatever the environment says of the concurrency, the batch size and the lease, be it no number,
-- zero or negative, the delivery service has a slot, and an idle tick asks for a delivery, on a
-- machine with a processor.
pub configured-IsLive :
    (cpus : ℕ) (vars : Variables)
    → 0 < cpus
    → (0 < (configured cpus vars).concurrency)
      × (0 < claim_limit (configured cpus vars) (configured cpus vars).concurrency)
unfolding configured
configured-IsLive cpus vars some_cpu = new-IsLive cpus _ _ _ some_cpu

abbrev join : List Bytes → Bytes
join [] = []
join (part ∷ []) = part
join (part ∷ next ∷ parts) = part ++ 44 ∷ join (next ∷ parts)

join-prepend : (c : ℕ) (parts : List Bytes) → join (prepend c parts) ≡ c ∷ join parts
join-prepend c [] = refl
join-prepend c (part ∷ []) = refl
join-prepend c (part ∷ next ∷ parts) = refl

prepend-some : (c : ℕ) (parts : List Bytes) → prepend c parts ≢ []
prepend-some c [] e = cc
prepend-some c (part ∷ parts) e = cc

split-some : (b : Bytes) → split b ≢ []
unfolding split
split-some [] = λ e. cc
split-some (c ∷ cs) = elim (Bool-cases (c == 44)) [
  | inl comma ↦ rw comma (λ (e : [] ∷ split cs ≡ []). cc)
  | inr other ↦ rw other (prepend-some c (split cs))
]

join-cut : (parts : List Bytes) → parts ≢ [] → join ([] ∷ parts) ≡ 44 ∷ join parts
join-cut [] some_part = absurd (some_part refl)
join-cut (part ∷ parts) some_part = refl

-- The brokers are what stands between the commas: with commas between them they are the value.
join-split : (b : Bytes) → join (split b) ≡ b
unfolding split
join-split [] = refl
join-split (c ∷ cs) = elim (Bool-cases (c == 44)) [
  | inl comma ↦ rw comma (
      join-cut (split cs) (split-some cs)
      ∙ ap (λ l. 44 ∷ l) (join-split cs)
      ∙ ap (λ d. d ∷ cs) (sym ((==_iff c 44).0 comma)))
  | inr other ↦ rw other (join-prepend c (split cs) ∙ ap (λ l. c ∷ l) (join-split cs))
]
