-- ===== src/Delivery/Rounds.antt =====
-- How often a delivery is tried: rounds of a claim and the delivery of what was claimed, as the
-- scheduler of delivery-service/internal/scheduler makes them with Deliver of
-- delivery-service/internal/delivery/service.go.
use hookyard.Base.{
  ℕ, suc, ◌+◌, ◌≤◌, ◌≡◌, refl, ap, ◌∙◌, subst, inl, inr, ◌⊎◌, Bool, true, some, List, Bytes, find,
  arith,
}
use hookyard.Base.Session.{Session, ok}
use hookyard.Delivery.Model.{Delivery, Tables, Clock, is_final}
use hookyard.Delivery.Repository.{has_id}
use hookyard.Delivery.Claim.{claim_batch}
use hookyard.Delivery.Service.{deliver}
use hookyard.Delivery.Operations.{Environment}
use hookyard.Delivery.Rows.{Distinct, find-id}
use hookyard.Delivery.Counted.{Counted, Anyhow, Leased, max_attempts}
use hookyard.Delivery.Handling.{Settles, claimed_row, delivered_row}

-- A round of one delivery: a claim that hands it out, and the delivery of it, which both succeed.
-- Whatever happens in between leaves its row alone.
pub record Round (env : Environment) (id : ℕ) (before after : Tables) : Type 0 where
  pub distinct : Distinct before.deliveries
  pub locked : ℕ → Bool
  pub claim_clock : Clock
  pub worker : Bytes
  pub limit : ℕ
  pub lease : ℕ
  pub claim_faults : List Bool
  pub batch : List Delivery
  pub leased : Session Tables
  pub claims :
      claim_batch env.multiplex locked claim_clock worker limit lease
        (record { db = before; faults = claim_faults })
      ≡ (ok batch, leased)
  pub handed : Delivery
  pub given : find (has_id id) batch ≡ some handed
  pub session : Session Tables
  pub kept : find (has_id id) session.db.deliveries ≡ find (has_id id) leased.db.deliveries
  pub latency : ℕ
  pub random : ℕ
  pub clock : Clock
  pub ended : Session Tables
  pub delivers :
      deliver env.decrypt env.network latency random clock handed session ≡ (ok tt, ended)
  pub left : ended.db ≡ after

-- So many rounds in a row, between which the row of the delivery is left alone too.
pub data Rounds (env : Environment) (id : ℕ) : ℕ → Tables → Tables → Type 0 where
  starts : (t : Tables) → Rounds env id 0 t t
  goes_on :
      (n : ℕ) (t u v w : Tables)
      → Rounds env id n t u
      → find (has_id id) v.deliveries ≡ find (has_id id) u.deliveries
      → Round env id v w
      → Rounds env id (suc n) t w

abbrev moved :
    (id max count : ℕ) (P Q : Delivery → Type 0) (t u : Tables)
    → (h : Counted id max count P t) → find (has_id id) u.deliveries ≡ find (has_id id) t.deliveries
    → Q h.row
    → Counted id max count Q u
moved id max count P Q t u h same known = record {
  row = h.row;
  found = same ∙ h.found;
  policy = h.policy;
  counted = h.counted;
  known = known;
}

fewer : (max a b : ℕ) (x : Delivery) → suc a ≤ b → Settles max b x → Settles max (suc a) x
fewer max a b x le (inl final) = inl final
fewer max a b x le (inr (again, few)) = inr (again, omega arith)

-- A round finds the row open, and settles it or leaves it with attempts that it counts.
Round-Counted :
    (env : Environment) (id max count : ℕ) (P : Delivery → Type 0) (t u v : Tables)
    → (h : Counted id max count P t) → find (has_id id) u.deliveries ≡ find (has_id id) t.deliveries
    → Round env id u v
    → ¬ (is_final h.row.status ≡ true) × Counted id max (suc count) (Settles max (suc count)) v
Round-Counted env id max count P t u v h same r =
    let there : Counted id max count Anyhow u = moved id max count P Anyhow t u h same tt in
    let (handed, live, claimed_row') =
      claimed_row id max count env.multiplex r.locked r.claim_clock r.worker r.limit r.lease
        (record { db = u; faults = r.claim_faults }) r.leased r.batch r.handed r.claims r.distinct
        r.given there in
    let settled_row : Counted id max (suc count) (Settles max r.handed.attempt_count) r.ended.db =
      delivered_row id max (suc count) env r.latency r.random r.clock r.handed r.session r.ended
        r.delivers (find-id id r.batch r.given) (ap max_attempts handed ∙ h.policy)
        (moved id max (suc count) Leased Leased r.leased.db r.session.db claimed_row' r.kept
          claimed_row'.known) in
    let counted : suc count ≤ r.handed.attempt_count =
      omega (arith, h.counted, ap (λ d. d.attempt_count) handed) in
    (
      live,
      subst (Counted id max (suc count) (Settles max (suc count))) r.left (
          moved id max (suc count) (Settles max r.handed.attempt_count) (Settles max (suc count))
            r.ended.db r.ended.db settled_row refl
            (fewer max count r.handed.attempt_count settled_row.row counted settled_row.known)),
    )

-- What is known of the row after `n` rounds from `count` attempts.
abbrev Tried : ℕ → ℕ → ℕ → Delivery → Type 0
Tried max count n x = (n ≡ 0) ⊎ Settles max (count + n) x

Rounds-Tried :
    (env : Environment) (id max count n : ℕ) (t u : Tables)
    → Counted id max count Anyhow t
    → Rounds env id n t u
    → Counted id max (count + n) (Tried max count n) u
Rounds-Tried env id max count _ t _ h (starts _) = record {
  row = h.row;
  found = h.found;
  policy = h.policy;
  counted = omega (arith, h.counted);
  known = inl refl;
}
Rounds-Tried env id max count _ t _ h (goes_on n _ u v w before same r) =
    let (_, after) =
      Round-Counted env id max (count + n) (Tried max count n) u v w
        (Rounds-Tried env id max count n t u h before) same r in
    record {
      row = after.row;
      found = after.found;
      policy = after.policy;
      counted = omega (arith, after.counted);
      known = inr (subst (λ k. Settles max k after.row) one_more after.known);
    }
  where
    one_more : suc (count + n) ≡ count + suc n
    one_more = omega arith

attempts_left :
    (max count n : ℕ) (x : Delivery)
    → ¬ (is_final x.status ≡ true)
    → Tried max count n x
    → (n ≡ 0) ⊎ (count + suc n ≤ max)
attempts_left max count n x live (inl first) = inl first
attempts_left max count n x live (inr (inl final)) = absurd (live final)
attempts_left max count n x live (inr (inr (again, few))) = inr (omega arith)

used_up :
    (max count n : ℕ) (x : Delivery)
    → max ≤ count + suc n
    → Tried max count (suc n) x
    → is_final x.status ≡ true
used_up max count n x le (inl first) = absurd (omega arith)
used_up max count n x le (inr (inl final)) = final
used_up max count n x le (inr (inr (again, few))) = absurd (omega arith)

-- A delivery is tried until it is settled, and it is: rounds that each claim it and record its
-- attempt, with its row left alone in between, are no more than the policy has attempts left, or
-- one; and as many as that leave it delivered, failed or in the dead letter queue.
pub Rounds-terminate :
    (env : Environment) (id n : ℕ) (t u : Tables) (r : Delivery)
    → find (has_id id) t.deliveries ≡ some r
    → Rounds env id (suc n) t u
    → ((n ≡ 0) ⊎ (r.attempt_count + suc n ≤ max_attempts r))
      × (max_attempts r ≤ r.attempt_count + suc n
          → (x : Delivery) × (find (has_id id) u.deliveries ≡ some x) × (is_final x.status ≡ true))
Rounds-terminate env id n t u r found rounds =
    let after = Rounds-Tried env id (max_attempts r) r.attempt_count (suc n) t u begins rounds in
    (left rounds refl, λ le. (after.row, after.found, used_up _ _ n after.row le after.known))
  where
    begins : Counted id (max_attempts r) r.attempt_count Anyhow t
    begins = record { row = r; found = found; policy = refl; counted = omega arith; known = tt }

    left :
        {m : ℕ} {w : Tables}
        → Rounds env id m t w
        → m ≡ suc n
        → (n ≡ 0) ⊎ (r.attempt_count + suc n ≤ max_attempts r)
    left (starts _) e = absurd (omega arith)
    left (goes_on k _ u' v w before same round) e =
        let tried = Rounds-Tried env id (max_attempts r) r.attempt_count k t u' begins before in
        let (live, _) =
          Round-Counted env id (max_attempts r) (r.attempt_count + k)
            (Tried (max_attempts r) r.attempt_count k) u' v w tried same round in
        let known = attempts_left (max_attempts r) r.attempt_count k tried.row live tried.known in
        subst (λ i. (i ≡ 0) ⊎ (r.attempt_count + suc i ≤ max_attempts r)) (omega arith) known
