-- ===== src/Delivery/Recorded.antt =====
-- What RecordAttemptAndTransition of delivery-service/internal/delivery/repository.go leaves in the
-- tables, column by column.
use hookyard.Base.{
  ℕ, ◌-◌, ◌/◌, ◌≤◌, ◌<◌, ◌≡◌, refl, ◌≢◌, ap, ◌↔◌, true, false, Option, none, some, [], ◌∷◌, ◌++◌,
  ◌&&◌, if◌then◌else◌, is_none, coalesce, find, arith,
}
use hookyard.Base.Session.{Session, ok}
use hookyard.Attempt.{ResultStatus, success, retryable, permanent, AttemptResult}
use hookyard.Delivery.Model.{
  Status, pending, in_progress, retrying, delivered, failed, dlq, cancelled, Delivery, Attempt,
  Tables, Clock, is_in_progress, is_retrying,
}
use hookyard.Delivery.Repository.{
  has_id, attempt_row, settled, next_status, record_attempt_and_transition,
}
use hookyard.Delivery.Transitions.{next_status_iff, IsWritten, record_attempt-IsWritten}

-- The attempt that is recorded of the delivery `d`, field by field.
pub record IsAttempt (c : Clock) (d : Delivery) (res : AttemptResult) (a : Attempt) : Type 0 where
  pub of_delivery : a.delivery_id ≡ d.id
  pub number : a.attempt_number ≡ d.attempt_count
  pub started : (t : ℕ) → d.last_attempt_at ≡ some t → a.started_at ≡ t
  pub computed : d.last_attempt_at ≡ none → a.started_at ≡ c.now - res.latency
  pub completed : a.completed_at ≡ c.now
  pub outcome : a.status ≡ res.status
  pub http_status : a.http_status_code ≡ res.http_status_code
  pub took : a.latency_ms ≡ res.latency / 1_000_000
  pub error_code : a.error_code ≡ res.error_code
  pub error_message : a.error_message ≡ res.error_message
  pub headers : a.response_headers ≡ res.response_headers
  pub body : a.response_body ≡ res.response_body

-- The outcome decides the status, and the attempts that `d` has used the fate of a retryable failure.
abbrev pub IsOutcome : Delivery → ResultStatus → Status → Type 0
IsOutcome d r status =
    let max = d.endpoint_snapshot.retry_policy.max_attempts in
    ((status ≡ delivered) ↔ (r ≡ success))
    × ((status ≡ failed) ↔ (r ≡ permanent))
    × ((status ≡ dlq) ↔ ((r ≡ retryable) × (max ≤ d.attempt_count)))
    × ((status ≡ retrying) ↔ ((r ≡ retryable) × (d.attempt_count < max)))

-- What the row `r` becomes when an attempt on `d` ends, column by column.
pub record IsSettled (c : Clock) (d : Delivery) (res : AttemptResult) (next : Option ℕ)
    (r row : Delivery) : Type 0 where
  pub outcome : IsOutcome d res.status row.status
  pub code : row.last_status_code ≡ res.http_status_code
  pub error_code : row.last_error_code ≡ res.error_code
  pub error_message : row.last_error_message ≡ res.error_message
  pub unowned : row.lease_owner ≡ none
  pub unleased : row.lease_expires_at ≡ none
  pub retried :
      row.status ≡ retrying → (row.completed_at ≡ none) × (next ≡ some row.next_attempt_at)
  pub ended :
      row.status ≢ retrying
      → (row.completed_at ≡ some c.db_now) × (row.next_attempt_at ≡ r.next_attempt_at)
  pub updated : row.updated_at ≡ c.db_now
  -- No other column changes.
  pub kept : row ≡ record r {
    status = row.status;
    last_status_code = row.last_status_code;
    last_error_code = row.last_error_code;
    last_error_message = row.last_error_message;
    lease_owner = row.lease_owner;
    lease_expires_at = row.lease_expires_at;
    completed_at = row.completed_at;
    next_attempt_at = row.next_attempt_at;
    updated_at = row.updated_at;
  }

-- What is known of the tables after a recorded attempt on `d`, whose row was `r`: the attempt stands
-- in the history, the row is settled if it was still in progress, and no other row has changed.
pub record IsRecorded (c : Clock) (d : Delivery) (res : AttemptResult) (next : Option ℕ)
    (r : Delivery) (before after : Tables) : Type 0 where
  pub recorded : Attempt
  pub attempted : after.attempts ≡ before.attempts ++ recorded ∷ []
  pub is_attempt : IsAttempt c d res recorded
  pub row : Delivery
  pub found : find (has_id d.id) after.deliveries ≡ some row
  pub settled : is_in_progress r.status ≡ true → IsSettled c d res next r row
  pub left : is_in_progress r.status ≡ false → row ≡ r
  pub others :
      (id : ℕ) → id ≢ d.id → find (has_id id) after.deliveries ≡ find (has_id id) before.deliveries

attempt_row-IsAttempt :
    (c : Clock) (d : Delivery) (res : AttemptResult) → IsAttempt c d res (attempt_row c d res)
attempt_row-IsAttempt c d res = record {
  of_delivery = refl;
  number = refl;
  started = λ t e. ap (λ o. coalesce o (c.now - res.latency)) e;
  computed = λ e. ap (λ o. coalesce o (c.now - res.latency)) e;
  completed = refl;
  outcome = refl;
  http_status = refl;
  took = refl;
  error_code = refl;
  error_message = refl;
  headers = refl;
  body = refl;
}

given_time : (next : Option ℕ) (old : ℕ) → is_none next ≡ false → next ≡ some (coalesce next old)
given_time none old e = cc
given_time (some t) old e = refl

-- What the update writes for a status.
retried_columns :
    (c : Clock) (res : AttemptResult) (next : Option ℕ) (r : Delivery) (status : Status)
    → (is_retrying status && is_none next) ≡ false
    → status ≡ retrying
    → ((settled c status res next r).completed_at ≡ none)
      × (next ≡ some (settled c status res next r).next_attempt_at)
retried_columns c res next r retrying given e = (refl, given_time next r.next_attempt_at given)
retried_columns c res next r pending given e = absurd (ground (arith, ap is_retrying e))
retried_columns c res next r in_progress given e = absurd (ground (arith, ap is_retrying e))
retried_columns c res next r delivered given e = absurd (ground (arith, ap is_retrying e))
retried_columns c res next r failed given e = absurd (ground (arith, ap is_retrying e))
retried_columns c res next r dlq given e = absurd (ground (arith, ap is_retrying e))
retried_columns c res next r cancelled given e = absurd (ground (arith, ap is_retrying e))

ended_columns :
    (c : Clock) (d : Delivery) (res : AttemptResult) (next : Option ℕ) (r : Delivery)
    (outcome : ResultStatus)
    → let row = settled c (next_status d outcome) res next r in
      next_status d outcome ≢ retrying
      → (row.completed_at ≡ some c.db_now) × (row.next_attempt_at ≡ r.next_attempt_at)
unfolding next_status
ended_columns c d res next r success apart = (refl, refl)
ended_columns c d res next r retryable apart = ground (arith, apart)
ended_columns c d res next r permanent apart = (refl, refl)

settled-IsSettled :
    (c : Clock) (d : Delivery) (res : AttemptResult) (next : Option ℕ) (r : Delivery)
    → (is_retrying (next_status d res.status) && is_none next) ≡ false
    → IsSettled c d res next r (settled c (next_status d res.status) res next r)
settled-IsSettled c d res next r given = record {
  outcome = next_status_iff d res.status;
  code = refl;
  error_code = refl;
  error_message = refl;
  unowned = refl;
  unleased = refl;
  retried = retried_columns c res next r (next_status d res.status) given;
  ended = ended_columns c d res next r res.status;
  updated = refl;
  kept = refl;
}

-- Recording an attempt on `d`, when it succeeds, adds exactly one attempt to the history, numbered by
-- the attempts of `d` and with what the client has reported. If the row of the delivery is still in
-- progress, whoever holds its lease, it takes the status that the outcome calls for and what the
-- attempt has reported, gives up its lease, and gets a completion time, or where it is to be retried
-- the time that the service has computed, and nothing else of it changes; if it is not, because the
-- delivery was settled in between, the row is left alone. No other row changes.
pub record_attempt-IsRecorded :
    (c : Clock) (d : Delivery) (res : AttemptResult) (next : Option ℕ) (r : Delivery)
    (s s' : Session Tables)
    → find (has_id d.id) s.db.deliveries ≡ some r
    → record_attempt_and_transition c d res next s ≡ (ok tt, s')
    → IsRecorded c d res next r s.db s'.db
record_attempt-IsRecorded c d res next r s s' found e =
    let w : IsWritten c d res next r s.db s'.db =
      record_attempt-IsWritten c d res next r s s' found e in
    record {
      recorded = attempt_row c d res;
      attempted = w.attempted;
      is_attempt = attempt_row-IsAttempt c d res;
      row = if is_in_progress r.status then settled c (next_status d res.status) res next r else r;
      found = w.row;
      settled = λ on. rw on (settled-IsSettled c d res next r (w.given on));
      left = λ off. rw off refl;
      others = w.others;
    }
