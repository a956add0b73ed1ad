-- ===== src/Delivery/Counted.antt =====
-- What a claim of delivery-service/internal/delivery/repository.go does to the attempt count of one
-- delivery.
use hookyard.Base.{
  ℕ, suc, ◌≤◌, ◌≡◌, refl, sym, ap, ◌∙◌, subst, inl, inr, Bool, true, false, ◌||◌, some, List, [],
  ◌∷◌, ◌==◌, Bytes, if◌then◌else◌, Bool-cases, find, exists, update, arith,
}
use hookyard.Base.Session.{call, exec, query}
use hookyard.Base.Ensures.{
  Ensures, Ensures-bind, Ensures-then, Ensures-call, Ensures-exec, Ensures-query, Ensures-pure,
  Ensures-transaction, Post,
}
use hookyard.Delivery.Model.{in_progress, Delivery, Tables, Clock}
use hookyard.Delivery.Repository.{has_id}
use hookyard.Delivery.Claim.{claim_query, leased, claimed, refuse_if_busy, claim_rows, claim_batch}
use hookyard.Delivery.Rows.{find-id, find-updated}
use hookyard.Delivery.Leases.{refuse_if_busy-Ensures}

abbrev pub max_attempts : Delivery → ℕ
max_attempts d = d.endpoint_snapshot.retry_policy.max_attempts

-- The row of an id, seen through what a lease leaves alone: it has had at least `count` attempts.
pub record Counted (id max count : ℕ) (P : Delivery → Type 0) (t : Tables) : Type 0 where
  pub row : Delivery
  pub found : find (has_id id) t.deliveries ≡ some row
  pub policy : max_attempts row ≡ max
  pub counted : count ≤ row.attempt_count
  pub known : P row

abbrev pub Anyhow : Delivery → Type 0
Anyhow d = Unit

abbrev pub Leased : Delivery → Type 0
Leased d = d.status ≡ in_progress

abbrev leased_to : Clock → Bytes → ℕ → Tables → Tables
leased_to c worker i t = record t { deliveries = update (has_id i) (leased c worker) t.deliveries }

module _ (id max count : ℕ) (c : Clock) (worker : Bytes) where
  -- What any lease leaves of the row, which it may be one on.
  any_lease :
      (i : ℕ) (t : Tables) (P Q : Delivery → Type 0) (count' : ℕ)
      → (h : Counted id max count P t)
      → (has_id i h.row ≡ true → Q (leased c worker h.row) × (count' ≤ suc h.row.attempt_count))
      → (has_id i h.row ≡ false → Q h.row × (count' ≤ h.row.attempt_count))
      → Counted id max count' Q (leased_to c worker i t)
  any_lease i t P Q count' h hit miss = elim (Bool-cases (has_id i h.row)) [
    | inl own ↦ record {
      row = leased c worker h.row;
      found = found ∙ ap (λ b. some (if b then leased c worker h.row else h.row)) own;
      policy = h.policy;
      counted = (hit own).1;
      known = (hit own).0;
    }
    | inr other ↦ record {
      row = h.row;
      found = found ∙ ap (λ b. some (if b then leased c worker h.row else h.row)) other;
      policy = h.policy;
      counted = (miss other).1;
      known = (miss other).0;
    }
  ]
    where
      found :
          find (has_id id) (update (has_id i) (leased c worker) t.deliveries)
          ≡ some (if has_id i h.row then leased c worker h.row else h.row)
      found = find-updated (has_id i) (leased c worker) (λ _. refl) id t.deliveries h.found

module _ (id max count : ℕ) (c : Clock) (worker : Bytes) where
  -- Before the row is leased, and after it.
  abbrev pub Stage : Bool → Tables → Type 0
  Stage false t = Counted id max count Anyhow t
  Stage true t = Counted id max (suc count) Leased t

  lease_step :
      (b : Bool) (d : Delivery) (t : Tables)
      → Stage b t
      → Stage (b || has_id id d) (leased_to c worker d.id t)
  lease_step true d t h =
      any_lease id max (suc count) c worker d.id t Leased Leased (suc count) h
        (λ _. (refl, omega (arith, h.counted))) (λ _. (h.known, h.counted))
  lease_step false d t h = elim (Bool-cases (d.id == id)) [
    | inl own ↦
        subst (λ b. Stage b (leased_to c worker d.id t)) (sym own)
          (any_lease id max count c worker d.id t Anyhow Leased (suc count) h
            (λ _. (refl, omega (arith, h.counted)))
            (λ other. absurd (ground (arith, find-id id t.deliveries h.found))))
    | inr other ↦
        subst (λ b. Stage b (leased_to c worker d.id t)) (sym other)
          (any_lease id max count c worker d.id t Anyhow Anyhow count h
            (λ _. (tt, omega (arith, h.counted))) (λ _. (tt, h.counted)))
  ]

  claim_rows-Stage :
      (multiplex : Bool) (rows : List Delivery) (b : Bool)
      → Ensures
          (Stage b)
          (claim_rows multiplex c worker rows)
          (λ _. Stage (b || exists (has_id id) rows))
  unfolding claim_rows exists
  claim_rows-Stage multiplex [] b s h = subst (λ x. Stage x s.db) (ground arith) h
  claim_rows-Stage multiplex (d ∷ rest) b s h =
      Ensures-then P P Q (call _) _ (Ensures-call P _)
        (Ensures-then P P Q (refuse_if_busy multiplex) _ (refuse_if_busy-Ensures P multiplex) (
          Ensures-then P P' Q (exec _ _) _ (Ensures-exec P P' _ _ (λ t. lease_step b d t)) (
            Ensures-bind P' _ Q (claim_rows multiplex c worker rest) _
              (claim_rows-Stage multiplex rest (b || has_id id d))
              (λ ds.
                Ensures-pure _ Q (claimed c d ∷ ds)
                  (λ t k. subst (λ x. Stage x t) (regroup b (has_id id d) _) k)))))
        s h
    where
      P : Tables → Type 0
      P = Stage b

      P' : Tables → Type 0
      P' = Stage (b || has_id id d)

      Q : List Delivery → Tables → Type 0
      Q _ = Stage (b || exists (has_id id) (d ∷ rest))

      regroup : (x y z : Bool) → ((x || y) || z) ≡ (x || (y || z))
      regroup x y z = ground arith

  pub claim_batch-Stage :
      (multiplex : Bool) (locked : ℕ → Bool) (limit lease : ℕ) (before : Tables)
      → Stage false before
      → Ensures
          (λ t. t ≡ before)
          (claim_batch multiplex locked c worker limit lease)
          (λ _. Stage (exists (has_id id) (claim_query locked limit c.db_now before.deliveries)))
  unfolding claim_batch
  claim_batch-Stage multiplex locked limit lease before h = Ensures-transaction _ Q _ _ _ (
      Ensures-bind _ R Q (query _ _) _
        (Ensures-query _ R _ _
          (λ t e. (ap (λ u. claim_query locked limit c.db_now u.deliveries) e, e)))
        (λ rows.
          Ensures-bind (R rows) (λ _. S) Q (claim_rows multiplex c worker rows) _
            (λ s k.
              subst (λ r. Post (λ _. S) (claim_rows multiplex c worker r s)) (sym k.0)
                (claim_rows-Stage multiplex _ false s (subst (Stage false) (sym k.1) h)))
            (λ ds.
              Ensures-then S S Q (call _) _ (Ensures-call S _) (Ensures-pure S Q ds (λ t k. k)))))
    where
      S : Tables → Type 0
      S = Stage (exists (has_id id) (claim_query locked limit c.db_now before.deliveries))

      Q : List Delivery → Tables → Type 0
      Q _ = S

      R : List Delivery → Tables → Type 0
      R rows t = (rows ≡ claim_query locked limit c.db_now before.deliveries) × (t ≡ before)
