-- ===== src/Delivery/Repository.antt =====
-- delivery-service/internal/delivery/repository.go: creating deliveries, recording attempts,
-- reading one and replaying one. `ClaimBatch` is in Claim.
use hookyard.Base.{
  ℕ, ◌-◌, ◌/◌, Bool, false, ◌&&◌, Option, none, some, List, [], ◌∷◌, ◌++◌, ◌==◌, leb, if◌then◌else◌,
  is_none, coalesce, find, exists, update,
}
use hookyard.Base.Session.{
  not_found, other, M, ◌>>=◌, ◌>>◌, pure, throw, attempt, query, transaction, for_each,
}
use hookyard.Attempt.{ResultStatus, success, retryable, permanent, AttemptResult}
use hookyard.Delivery.Model.{
  Status, pending, retrying, delivered, failed, dlq, EventAccepted, EndpointSnapshotWithId,
  Delivery, Attempt, Tables, UniqueIndex, total, originals, absent, Clock, is_in_progress,
  is_retrying, is_final,
}

abbrev pub has_id : ℕ → Delivery → Bool
has_id id d = d.id == id

abbrev pub same_pair : Delivery → Delivery → Bool
same_pair a b = (b.event_id == a.event_id) && (b.endpoint_id == a.endpoint_id)

abbrev pub append_row : Delivery → Tables → Tables
append_row row t = record t { deliveries = t.deliveries ++ row ∷ [] }

-- INSERT … ON CONFLICT (event_id, endpoint_id) DO NOTHING. PostgreSQL infers only an index with no
-- predicate from this conflict target, and refuses the statement where there is none.
unfoldable pub insert_or_skip : UniqueIndex → Delivery → Tables → Option Tables
insert_or_skip total row t =
    if exists (same_pair row) t.deliveries
    then some t
    else if exists (has_id row.id) t.deliveries
    then none
    else some (append_row row t)
insert_or_skip originals row t = none
insert_or_skip absent row t = none

-- Whether a new row breaks the unique index.
unfoldable pub breaks : UniqueIndex → Delivery → List Delivery → Bool
breaks total row ds = exists (same_pair row) ds
breaks originals row ds =
    is_none row.replay_of_delivery_id
    && exists (λ d. same_pair row d && is_none d.replay_of_delivery_id) ds
breaks absent row ds = false

-- A plain INSERT.
unfoldable pub insert_row : UniqueIndex → Delivery → Tables → Option Tables
unfolding breaks
insert_row index row t =
    if exists (has_id row.id) t.deliveries
    then none
    else if breaks index row t.deliveries
    then none
    else some (append_row row t)

-- The row that CreateDeliveries inserts for an endpoint; `fresh` is gen_random_uuid().
abbrev pub original : (ℕ → ℕ) → Clock → EventAccepted → EndpointSnapshotWithId → Delivery
original fresh c e ep = record {
  id = fresh ep.endpoint_id;
  tenant_id = e.tenant_id;
  event_id = e.event_id;
  endpoint_id = ep.endpoint_id;
  status = pending;
  attempt_count = 0;
  next_attempt_at = c.db_now;
  last_attempt_at = none;
  last_status_code = none;
  last_error_code = none;
  last_error_message = none;
  lease_owner = none;
  lease_expires_at = none;
  replay_of_delivery_id = none;
  endpoint_snapshot = record (ep.snapshot) { event_type = e.event_type };
  event_payload = e.payload;
  created_at = c.db_now;
  updated_at = c.db_now;
  completed_at = none;
}

-- `fresh` gives the id of the row made for each endpoint.
unfoldable pub create_deliveries :
    UniqueIndex
    → (ℕ → ℕ)
    → Clock
    → EventAccepted
    → List EndpointSnapshotWithId
    → M Tables (Unit {0})
create_deliveries index fresh c e endpoints = transaction (other "begin") (other "commit") (
    for_each endpoints
      (λ ep. attempt (other "create delivery") (insert_or_skip index (original fresh c e ep))))

abbrev pub or_not_found : Option Delivery → M Tables Delivery
or_not_found none = throw not_found
or_not_found (some d) = pure d

unfoldable pub get : ℕ → ℕ → M Tables Delivery
get tenant_id id = do
  found ←
      query (other "get delivery")
        (λ t. find (λ d. has_id id d && d.tenant_id == tenant_id) t.deliveries)
  or_not_found found

-- The switch of RecordAttemptAndTransition over the kind of result.
unfoldable pub next_status : Delivery → ResultStatus → Status
next_status d success = delivered
next_status d retryable =
    if leb d.endpoint_snapshot.retry_policy.max_attempts d.attempt_count then dlq else retrying
next_status d permanent = failed

abbrev pub same_attempt : ℕ → ℕ → Attempt → Bool
same_attempt delivery_id n a = (a.delivery_id == delivery_id) && (a.attempt_number == n)

abbrev pub attempt_row : Clock → Delivery → AttemptResult → Attempt
attempt_row c d res = record {
  delivery_id = d.id;
  attempt_number = d.attempt_count;
  started_at = coalesce d.last_attempt_at (c.now - res.latency);
  completed_at = c.now;
  status = res.status;
  http_status_code = res.http_status_code;
  latency_ms = res.latency / 1_000_000;
  error_code = res.error_code;
  error_message = res.error_message;
  response_headers = res.response_headers;
  response_body = res.response_body;
}

-- The delivery exists (foreign key), and the attempt number is new for it (UNIQUE).
unfoldable pub insert_attempt : Attempt → Tables → Option Tables
insert_attempt a t =
    if exists (has_id a.delivery_id) t.deliveries
    then (if exists (same_attempt a.delivery_id a.attempt_number) t.attempts
        then none
        else some (record t { attempts = t.attempts ++ a ∷ [] }))
    else none

abbrev pub leased_row : ℕ → Delivery → Bool
leased_row id d = has_id id d && is_in_progress d.status

-- What the UPDATE sets.
abbrev pub settled : Clock → Status → AttemptResult → Option ℕ → Delivery → Delivery
settled c status res next d = record d {
  status = status;
  last_status_code = res.http_status_code;
  last_error_code = res.error_code;
  last_error_message = res.error_message;
  lease_owner = none;
  lease_expires_at = none;
  completed_at = if is_final status then some c.db_now else none;
  next_attempt_at =
      if is_retrying status then coalesce next d.next_attempt_at else d.next_attempt_at;
  updated_at = c.db_now;
}

-- The UPDATE of the row that is in progress; `next_attempt_at` must not become NULL.
unfoldable pub settle : Clock → ℕ → Status → AttemptResult → Option ℕ → Tables → Option Tables
settle c id status res next t =
    if is_retrying status && (is_none next && exists (leased_row id) t.deliveries)
    then none
    else some
        (record t { deliveries = update (leased_row id) (settled c status res next) t.deliveries })

unfoldable pub record_attempt_and_transition :
    Clock → Delivery → AttemptResult → Option ℕ → M Tables (Unit {0})
record_attempt_and_transition c d res next = transaction (other "begin") (other "commit") (do
  attempt (other "insert attempt") (insert_attempt (attempt_row c d res))
  attempt (other "transition delivery") (settle c d.id (next_status d res.status) res next))

abbrev pub replay_row : ℕ → Clock → Delivery → Delivery
replay_row id c d = record {
  id = id;
  tenant_id = d.tenant_id;
  event_id = d.event_id;
  endpoint_id = d.endpoint_id;
  status = pending;
  attempt_count = 0;
  next_attempt_at = c.db_now;
  last_attempt_at = none;
  last_status_code = none;
  last_error_code = none;
  last_error_message = none;
  lease_owner = none;
  lease_expires_at = none;
  replay_of_delivery_id = some d.id;
  endpoint_snapshot = d.endpoint_snapshot;
  event_payload = d.event_payload;
  created_at = c.db_now;
  updated_at = c.db_now;
  completed_at = none;
}

-- `id` is what uuid.New() returns.
unfoldable pub create_replay : UniqueIndex → ℕ → Clock → Delivery → M Tables ℕ
create_replay index id c d = do
  attempt (other "create replay") (insert_row index (replay_row id c d))
  pure id
