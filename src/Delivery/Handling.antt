-- ===== src/Delivery/Handling.antt =====
-- What a claim hands out of one delivery, and what delivering it makes of its row
-- (delivery-service/internal/delivery).
use hookyard.Base.{
  ℕ, suc, ◌/◌, ◌<◌, ◌≡◌, refl, sym, ap, ◌∙◌, subst, inl, inr, ◌⊎◌, Bool, true, not, ◌&&◌, Option,
  none, some, some-injective, List, [], ◌∷◌, ◌==◌, ==_iff, Bytes, if◌then◌else◌, map, All, All-zip,
  All-take, All-select, All-selected, All-order_by, All-find, Bool-cases, find, select, exists,
  arith,
}
use hookyard.Base.Session.{Session, ok}
use hookyard.Base.Ensures.{Ensures-use}
use hookyard.Webhook.Client.{send}
use hookyard.Attempt.{ResultStatus, success, retryable, permanent}
use hookyard.Delivery.Model.{Status, retrying, Delivery, Tables, Clock, is_final, is_in_progress}
use hookyard.Delivery.Repository.{has_id, next_status, settled}
use hookyard.Delivery.Claim.{due, claim_query, claim_order, claimed, claim_batch}
use hookyard.Delivery.Service.{
  deliver, attempt_and_record, with_secret, webhook_request, next_attempt,
}
use hookyard.Delivery.Operations.{Environment}
use hookyard.Delivery.Rows.{find-exists, Distinct, find-only, find-id}
use hookyard.Delivery.Counted.{Counted, Anyhow, Leased, max_attempts, Stage, claim_batch-Stage}
use hookyard.Delivery.Settled.{final_not_due}
use hookyard.Delivery.Leases.{claim_batch-leases}
use hookyard.Delivery.Transitions.{IsWritten, record_attempt-IsWritten}

-- The row that a claim hands out for an id is the row of the table with its count raised.
find-claimed :
    (id : ℕ) (c : Clock) (rows : List Delivery) (d : Delivery)
    → find (has_id id) (map (claimed c) rows) ≡ some d
    → (x : Delivery) × (find (has_id id) rows ≡ some x) × (d ≡ claimed c x)
unfolding find
find-claimed id c [] d e = cc
find-claimed id c (x ∷ xs) d e = elim (Bool-cases (x.id == id)) [
  | inl hit ↦ (x, rw hit refl, sym (some-injective (claimed c x) d (rw hit at e)))
  | inr miss ↦
      let (y, found, same) = find-claimed id c xs d (rw miss at e) in (y, rw miss found, same)
]

-- The row that is found under the id, and not final.
abbrev IsOpen : ℕ → Delivery → Delivery → Type 0
IsOpen id r d = d.id ≡ id → (d ≡ r) × ¬ (is_final d.status ≡ true)

claim_query-IsOpen :
    (locked : ℕ → Bool) (limit now id : ℕ) (ds : List Delivery) (r : Delivery)
    → Distinct ds
    → find (has_id id) ds ≡ some r
    → All (IsOpen id r) (claim_query locked limit now ds)
unfolding claim_query
claim_query-IsOpen locked limit now id ds r distinct found = All-take _ limit _ (
    All-order_by claim_order _ _ (
      All-zip _ _ _ (select p ds) (λ d hit only e. (only e, not_final d hit)) (All-selected p ds)
        (All-select _ p ds (find-only id ds distinct found))))
  where
    p : Delivery → Bool
    p d = due now d && not (locked d.id)

    not_final : (d : Delivery) → p d ≡ true → ¬ (is_final d.status ≡ true)
    not_final d hit = final_not_due now (not (locked d.id)) d hit

pub claimed_row :
    (id max count : ℕ) (multiplex : Bool) (locked : ℕ → Bool) (c : Clock) (worker : Bytes)
    (limit lease : ℕ) (s s' : Session Tables) (ds : List Delivery) (d : Delivery)
    → claim_batch multiplex locked c worker limit lease s ≡ (ok ds, s')
    → Distinct s.db.deliveries
    → find (has_id id) ds ≡ some d
    → (h : Counted id max count Anyhow s.db)
    → (d ≡ claimed c h.row)
      × ¬ (is_final h.row.status ≡ true)
      × Counted id max (suc count) Leased s'.db
claimed_row id max count multiplex locked c worker limit lease s s' ds d run distinct given h =
    let rows : List Delivery = claim_query locked limit c.db_now s.db.deliveries in
    let handed : ds ≡ map (claimed c) rows =
      (claim_batch-leases multiplex locked c worker limit lease s s' ds run).0 in
    let (x, found, same) =
      find-claimed id c rows d (subst (λ l. find (has_id id) l ≡ some d) handed given) in
    let open_row : IsOpen id h.row x =
      All-find (IsOpen id h.row) (has_id id) rows found
        (claim_query-IsOpen locked limit c.db_now id s.db.deliveries h.row distinct h.found) in
    let there : exists (has_id id) rows ≡ true =
      find-exists (has_id id) (has_id id) rows found
        (λ y e. (==_iff y.id id).1 (ap (λ z. z.id) e ∙ find-id id rows found)) in
    let (is_row, live) = open_row (find-id id rows found) in
    let stage : Stage id max count c worker (exists (has_id id) rows) s'.db =
      Ensures-use (λ t. t ≡ s.db) (λ _. Stage id max count c worker (exists (has_id id) rows)) _ s
        s' ds (claim_batch-Stage id max count c worker multiplex locked limit lease s.db h) refl
        run in
    (
      same ∙ ap (claimed c) is_row,
      subst (λ y. ¬ (is_final y.status ≡ true)) is_row live,
      subst (λ b. Stage id max count c worker b s'.db) there stage,
    )

-- How an attempt leaves a row: settled for good, or to be tried again while attempts are left.
abbrev pub Settles : ℕ → ℕ → Delivery → Type 0
Settles max count x = (is_final x.status ≡ true) ⊎ ((x.status ≡ retrying) × (count < max))

next_status-Settles :
    (d : Delivery) (r : ResultStatus)
    → (is_final (next_status d r) ≡ true)
      ⊎ ((next_status d r ≡ retrying) × (d.attempt_count < max_attempts d))
unfolding next_status
next_status-Settles d success = inl refl
next_status-Settles d permanent = inl refl
next_status-Settles d retryable = ground arith

pub delivered_row :
    (id max count : ℕ) (env : Environment) (latency random : ℕ) (c : Clock) (d : Delivery)
    (s s' : Session Tables)
    → deliver env.decrypt env.network latency random c d s ≡ (ok tt, s')
    → d.id ≡ id
    → max_attempts d ≡ max
    → Counted id max count Leased s.db
    → Counted id max count (Settles max d.attempt_count) s'.db
unfolding deliver
delivered_row id max count env latency random c d s s' run same policy h =
    go (env.decrypt d.endpoint_snapshot.secret_encrypted) run
  where
    go :
        (o : Option Bytes)
        → attempt_and_record env.network latency random c d o s ≡ (ok tt, s')
        → Counted id max count (Settles max d.attempt_count) s'.db
    go none q = cc
    go (some secret) q =
        let res =
          send env.network (c.now / 1_000_000_000) latency (webhook_request env.network d secret) in
        let next = next_attempt c random (with_secret d secret) res in
        let status : Status = next_status (with_secret d secret) res.status in
        let recorded : IsWritten c (with_secret d secret) res next h.row s.db s'.db =
          record_attempt-IsWritten c (with_secret d secret) res next h.row s s'
            (subst (λ i. find (has_id i) s.db.deliveries ≡ some h.row) (sym same) h.found) q in
        record {
          row = settled c status res next h.row;
          found =
              subst (λ i. find (has_id i) s'.db.deliveries ≡ some (settled c status res next h.row))
                same
                (recorded.row
                  ∙ ap
                      (λ st.
                        some (if is_in_progress st then settled c status res next h.row else h.row))
                      h.known);
          policy = h.policy;
          counted = h.counted;
          known =
              subst (λ m. (is_final status ≡ true) ⊎ ((status ≡ retrying) × (d.attempt_count < m)))
                policy (next_status-Settles (with_secret d secret) res.status);
        }
