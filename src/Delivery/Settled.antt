-- ===== src/Delivery/Settled.antt =====
-- A delivery that is delivered, failed or in the dead letter queue stays as it is.
use hookyard.Base.{
  ℕ, ◌≡◌, refl, sym, subst, ◌≢◌, Bool, true, false, not, ◌&&◌, Option, some, List, [], ◌∷◌, Bytes,
  All, All-zip, All-take, All-select, All-selected, All-order_by, select, find, exists, update,
  arith,
}
use hookyard.Base.Session.{call, exec}
use hookyard.Base.Keeps.{
  Keeps, Keeps-bind, Keeps-then, Keeps-call, Keeps-pure, Keeps-exec, Turns-query, Turns-transaction,
}
use hookyard.Attempt.{AttemptResult}
use hookyard.Delivery.Model.{Delivery, Tables, Clock, is_final}
use hookyard.Delivery.Repository.{
  has_id, leased_row, settled, original, replay_row, append_row, next_status,
}
use hookyard.Delivery.Claim.{
  due, claim_query, claim_order, leased, claimed, refuse_if_busy, claim_rows, claim_batch,
}
use hookyard.Delivery.Rows.{
  Distinct, Distinct-append, Distinct-update, find-update, find-append, find-only, find-id,
}
use hookyard.Delivery.Operations.{Operation, Environment, run}
use hookyard.Delivery.Preservation.{IsPreserved, run-Keeps}
use hookyard.Delivery.Claims.{refuse_if_busy-Keeps}

pub final_not_due :
    (now : ℕ) (b : Bool) (d : Delivery) → (due now d && b) ≡ true → ¬ (is_final d.status ≡ true)
unfolding due
final_not_due now b d h f = ground arith

module _ (id : ℕ) (r : Delivery) (final : is_final r.status ≡ true) where
  -- The ids are distinct and `id` is found as the row `r`.
  pub record Holds (t : Tables) : Type 0 where
    pub distinct : Distinct t.deliveries
    pub found : find (has_id id) t.deliveries ≡ some r

  update-Holds :
      (p : Delivery → Bool) (f : Delivery → Delivery) (t : Tables)
      → ((d : Delivery) → (f d).id ≡ d.id)
      → p r ≡ false
      → Holds t
      → Holds (record t { deliveries = update p f t.deliveries })
  update-Holds p f t same miss h = record {
    distinct = Distinct-update p f same t.deliveries h.distinct;
    found = find-update p f same id t.deliveries h.found miss;
  }

  append-Holds :
      (row : Delivery) (t : Tables)
      → exists (has_id row.id) t.deliveries ≡ false
      → Holds t
      → Holds (append_row row t)
  append-Holds row t free h = record {
    distinct = Distinct-append t.deliveries row free h.distinct;
    found = find-append id t.deliveries row h.found;
  }

  not_leased : leased_row id r ≡ false
  not_leased = ground arith

  settle-Holds :
      (c : Clock) (i : ℕ) (d : Delivery) (res : AttemptResult) (next : Option ℕ) (t : Tables)
      → Holds t
      → Holds (record t {
        deliveries =
            update (leased_row i) (settled c (next_status d res.status) res next) t.deliveries;
      })
  settle-Holds c i d res next t h =
      update-Holds (leased_row i) (settled c (next_status d res.status) res next) t (λ _. refl)
        (ground arith) h

  Others : List Delivery → Type 0
  Others rows = All (λ d. d.id ≢ id) rows

  claim_query-Others :
      (locked : ℕ → Bool) (limit now : ℕ) (t : Tables)
      → Holds t
      → Others (claim_query locked limit now t.deliveries)
  unfolding claim_query Others
  claim_query-Others locked limit now t h = All-take _ limit _ (
      All-order_by claim_order _ _ (
        All-zip _ _ _ (select p t.deliveries) other_id (All-selected p t.deliveries)
          (All-select _ p t.deliveries (find-only id t.deliveries h.distinct h.found))))
    where
      p : Delivery → Bool
      p d = due now d && not (locked d.id)

      other_id : (d : Delivery) → p d ≡ true → (d.id ≡ id → d ≡ r) → d.id ≢ id
      other_id d hit only e =
          final_not_due now (not (locked d.id)) d hit
            (subst (λ x. is_final x.status ≡ true) (sym (only e)) final)

  claim_rows-Holds :
      (multiplex : Bool) (c : Clock) (worker : Bytes) (rows : List Delivery)
      → Others rows
      → Keeps Holds (claim_rows multiplex c worker rows)
  unfolding claim_rows Others
  claim_rows-Holds multiplex c worker [] o s h = h
  claim_rows-Holds multiplex c worker (d ∷ rest) o s h =
      Keeps-then Holds (call _) _ (Keeps-call Holds _)
        (Keeps-then Holds (refuse_if_busy multiplex) _ (refuse_if_busy-Keeps Holds multiplex) (
          Keeps-then Holds (exec _ _) _
            (Keeps-exec Holds _ _
              (λ t k. update-Holds (has_id d.id) (leased c worker) t (λ _. refl) (other_row t k) k))
            (Keeps-bind Holds (claim_rows multiplex c worker rest) _
              (claim_rows-Holds multiplex c worker rest o.1)
              (λ ds. Keeps-pure Holds (claimed c d ∷ ds)))))
        s h
    where
      other_row : (t : Tables) → Holds t → has_id d.id r ≡ false
      other_row t k = ground (arith, find-id id t.deliveries k.found)

  claim_batch-Holds :
      (multiplex : Bool) (locked : ℕ → Bool) (c : Clock) (worker : Bytes) (limit lease : ℕ)
      → Keeps Holds (claim_batch multiplex locked c worker limit lease)
  unfolding claim_batch
  claim_batch-Holds multiplex locked c worker limit lease =
      Turns-transaction Holds Holds _ _ _ (λ t h. h)
        (Turns-query Holds Holds (λ rows t. Others rows × Holds t) _
          (λ t. claim_query locked limit c.db_now t.deliveries) _ (λ t h. h)
          (λ t h. (claim_query-Others locked limit c.db_now t h, h))
          (λ rows s k.
            Keeps-bind Holds (claim_rows multiplex c worker rows) _
              (claim_rows-Holds multiplex c worker rows k.0)
              (λ ds. Keeps-then Holds (call _) _ (Keeps-call Holds _) (Keeps-pure Holds ds)) s k.1))

  Holds-IsPreserved : (env : Environment) → IsPreserved env Holds
  Holds-IsPreserved env = record {
    on_original = λ fresh c e ep t free. append-Holds (original fresh c e ep) t free;
    on_replay = λ i c d t free. append-Holds (replay_row i c d) t free;
    on_attempt = λ a t h. record { distinct = h.distinct; found = h.found };
    on_settle = settle-Holds;
    on_claim = claim_batch-Holds env.multiplex;
  }

-- Once a delivery is delivered, failed or in the dead letter queue, and the ids of the table are
-- distinct, no history of claims, deliveries by any worker (also one with a stale copy), replays
-- and newly accepted events, on any driver faults, changes anything in its row.
pub final_absorbs :
    (env : Environment) (history : List (Operation × List Bool)) (t : Tables) (id : ℕ)
    (r : Delivery)
    → Distinct t.deliveries
    → find (has_id id) t.deliveries ≡ some r
    → is_final r.status ≡ true
    → find (has_id id) (run env history t).deliveries ≡ some r
final_absorbs env history t id r distinct found final =
    (run-Keeps env (Holds id r final) (Holds-IsPreserved id r final env) history t
      (record { distinct = distinct; found = found })).found
