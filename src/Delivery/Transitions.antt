-- ===== src/Delivery/Transitions.antt =====
-- What recording an attempt does to the delivery that was attempted.
use hookyard.Base.{
  ℕ, ◌≢◌, true, false, exists, is_none, ◌≤◌, ◌<◌, ◌≡◌, refl, sym, ap, subst, ◌↔◌, Option, some,
  List, [], ◌∷◌, ◌++◌, ==_iff, ◌&&◌, if◌then◌else◌, is_some, accepted, admitted, ◌∙◌, find, update,
  arith,
}
use hookyard.Base.Session.{Session, ok, attempt}
use hookyard.Base.Ensures.{Ensures, Ensures-then, Ensures-attempt, Ensures-transaction, Ensures-use}
use hookyard.Attempt.{ResultStatus, success, retryable, permanent, AttemptResult}
use hookyard.Delivery.Model.{
  Status, retrying, delivered, failed, dlq, Delivery, Tables, Clock, is_in_progress, is_retrying,
}
use hookyard.Delivery.Repository.{
  has_id, leased_row, attempt_row, insert_attempt, settled, settle, next_status,
  record_attempt_and_transition,
}
use hookyard.Delivery.Service.{next_attempt}
use hookyard.Delivery.Rows.{find-id, find-updated, find-exists}

-- The service computes a time for the next attempt exactly when the repository moves the delivery
-- to RETRYING, so the two decisions, made in different places, never disagree: the update never
-- writes a missing time, and no delivery is retried without one.
pub next_attempt-next_status :
    (c : Clock) (random : ℕ) (d : Delivery) (res : AttemptResult)
    → is_some (next_attempt c random d res) ≡ is_retrying (next_status d res.status)
unfolding next_attempt next_status
next_attempt-next_status c random d res = by_status res.status refl
  where
    by_status :
        (r : ResultStatus)
        → res.status ≡ r
        → is_some (next_attempt c random d res) ≡ is_retrying (next_status d res.status)
    by_status success e = ground arith
    by_status retryable e = ground arith
    by_status permanent e = ground arith

-- The outcome decides the status: success delivers, a permanent failure fails, and a retryable
-- failure goes to the dead letter queue exactly when the attempts are used up.
pub next_status_iff :
    (d : Delivery) (r : ResultStatus)
    → let max = d.endpoint_snapshot.retry_policy.max_attempts in
      ((next_status d r ≡ delivered) ↔ (r ≡ success))
      × ((next_status d r ≡ failed) ↔ (r ≡ permanent))
      × ((next_status d r ≡ dlq) ↔ ((r ≡ retryable) × (max ≤ d.attempt_count)))
      × ((next_status d r ≡ retrying) ↔ ((r ≡ retryable) × (d.attempt_count < max)))
unfolding next_status
next_status_iff d success = ground arith
next_status_iff d retryable = ground arith
next_status_iff d permanent = ground arith

-- The update that ends an attempt, as seen through the row of its id.
find-settled :
    (id : ℕ) (f : Delivery → Delivery) (ds : List Delivery) (r : Delivery)
    → ((d : Delivery) → (f d).id ≡ d.id)
    → find (has_id id) ds ≡ some r
    → find (has_id id) (update (leased_row id) f ds)
      ≡ some (if is_in_progress r.status then f r else r)
find-settled id f ds r same e =
    find-updated (leased_row id) f same id ds e
    ∙ ap (λ b. some (if b && is_in_progress r.status then f r else r))
        ((==_iff r.id id).1 (find-id id ds e))

-- The update leaves the rows of other ids alone.
find-other :
    (id other : ℕ) (f : Delivery → Delivery) (ds : List Delivery)
    → ((d : Delivery) → (f d).id ≡ d.id)
    → other ≢ id
    → find (has_id other) (update (leased_row id) f ds) ≡ find (has_id other) ds
unfolding find update
find-other id other f [] same apart = refl
find-other id other f (d ∷ ds) same apart =
    ground (arith, same d, apart, find-other id other f ds same apart)

-- What a recorded attempt has written, in the words of the code.
pub record IsWritten (c : Clock) (d : Delivery) (res : AttemptResult) (next : Option ℕ)
    (r : Delivery) (before after : Tables) : Type 0 where
  pub attempted : after.attempts ≡ before.attempts ++ attempt_row c d res ∷ []
  pub row :
      find (has_id d.id) after.deliveries
      ≡ some
          (if is_in_progress r.status then settled c (next_status d res.status) res next r else r)
  pub given :
      is_in_progress r.status ≡ true
      → (is_retrying (next_status d res.status) && is_none next) ≡ false
  pub others :
      (id : ℕ) → id ≢ d.id → find (has_id id) after.deliveries ≡ find (has_id id) before.deliveries

-- A row that was found is there to be settled.
settle-given :
    (c : Clock) (d : Delivery) (status : Status) (res : AttemptResult) (next : Option ℕ)
    (r : Delivery) (t t' : Tables)
    → settle c d.id status res next t ≡ some t'
    → find (has_id d.id) t.deliveries ≡ some r
    → is_in_progress r.status ≡ true
    → (is_retrying status && is_none next) ≡ false
unfolding settle
settle-given c d status res next r t t' q found on =
    let there : exists (leased_row d.id) t.deliveries ≡ true =
      find-exists (has_id d.id) (leased_row d.id) t.deliveries found (λ x e.
        subst (λ y. leased_row d.id y ≡ true) (sym e)
          (ground (arith, find-id d.id t.deliveries found, on))) in
    ground (arith, there)

record_attempt-Ensures :
    (c : Clock) (d : Delivery) (res : AttemptResult) (next : Option ℕ) (r : Delivery)
    (before : Tables)
    → find (has_id d.id) before.deliveries ≡ some r
    → Ensures
        (λ t. t ≡ before)
        (record_attempt_and_transition c d res next)
        (λ _. IsWritten c d res next r before)
unfolding record_attempt_and_transition insert_attempt settle
record_attempt-Ensures c d res next r before found = Ensures-transaction _ Q _ _ _ (
    Ensures-then _ R Q (attempt _ _) _
      (Ensures-attempt _ R _ _ (λ t t' q e.
        subst R (admitted _ _ _ t' q)
          (ap (λ u. u.attempts ++ attempt_row c d res ∷ []) e, ap (λ u. u.deliveries) e)))
      (Ensures-attempt R _ _ _ (λ t t' q k.
        subst (IsWritten c d res next r before) (accepted _ _ t' q) (record {
          attempted = k.0;
          row = find-settled d.id _ t.deliveries r (λ _. refl) (here t k.1);
          given = settle-given c d (next_status d res.status) res next r t t' q (here t k.1);
          others = λ id apart.
              find-other d.id id _ t.deliveries (λ _. refl) apart ∙ ap (find (has_id id)) k.1;
        }))))
  where
    Q : Unit {0} → Tables → Type 0
    Q _ = IsWritten c d res next r before

    R : Tables → Type 0
    R t =
        (t.attempts ≡ before.attempts ++ attempt_row c d res ∷ [])
        × (t.deliveries ≡ before.deliveries)

    here :
        (t : Tables) → t.deliveries ≡ before.deliveries → find (has_id d.id) t.deliveries ≡ some r
    here t e = ap (find (has_id d.id)) e ∙ found

-- What a successful run of RecordAttemptAndTransition has written.
pub record_attempt-IsWritten :
    (c : Clock) (d : Delivery) (res : AttemptResult) (next : Option ℕ) (r : Delivery)
    (s s' : Session Tables)
    → find (has_id d.id) s.db.deliveries ≡ some r
    → record_attempt_and_transition c d res next s ≡ (ok tt, s')
    → IsWritten c d res next r s.db s'.db
record_attempt-IsWritten c d res next r s s' found e =
    Ensures-use _ (λ _. IsWritten c d res next r s.db) _ s s' tt
      (record_attempt-Ensures c d res next r s.db found) refl e
