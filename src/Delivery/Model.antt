-- ===== src/Delivery/Model.antt =====
-- The data of delivery-service/internal/delivery/model.go and of the tables in
-- delivery-service/migrations/001_init.sql. A uuid.UUID is a number with uuid.Nil = 0; an instant
-- is a number of nanoseconds; a row of `deliveries` is a `Delivery`.
use hookyard.Base.{ℕ, Bytes, Bool, true, false, Option, List}
use hookyard.Attempt.{ResultStatus}

pub data Status : Type 0 where
  pending in_progress retrying delivered failed dlq cancelled : Status

pub Status-discrete : Discrete Status
Status-discrete = hlevel

pub record RetryPolicy : Type 0 where
  pub max_attempts : ℕ
  pub backoff_type : Bytes
  pub initial_delay_ms : ℕ
  pub max_delay_ms : ℕ
  pub jitter_percent : ℕ

pub record EventAccepted : Type 0 where
  pub message_id : Bytes
  pub event_id : ℕ
  pub tenant_id : ℕ
  pub event_type : Bytes
  pub payload : Bytes

pub record EndpointSnapshot : Type 0 where
  pub event_type : Bytes
  pub url : Bytes
  pub secret_encrypted : Bytes
  pub connect_timeout_ms : ℕ
  pub request_timeout_ms : ℕ
  pub retry_policy : RetryPolicy

pub record EndpointSnapshotWithId : Type 0 where
  pub endpoint_id : ℕ
  pub event_type : Bytes
  pub snapshot : EndpointSnapshot

pub record Delivery : Type 0 where
  pub id : ℕ
  pub tenant_id : ℕ
  pub event_id : ℕ
  pub endpoint_id : ℕ
  pub status : Status
  pub attempt_count : ℕ
  pub next_attempt_at : ℕ
  pub last_attempt_at : Option ℕ
  pub last_status_code : Option ℕ
  pub last_error_code : Option Bytes
  pub last_error_message : Option Bytes
  pub lease_owner : Option Bytes
  pub lease_expires_at : Option ℕ
  pub replay_of_delivery_id : Option ℕ
  pub endpoint_snapshot : EndpointSnapshot
  pub event_payload : Bytes
  pub created_at : ℕ
  pub updated_at : ℕ
  pub completed_at : Option ℕ

-- A row of `delivery_attempts`.
pub record Attempt : Type 0 where
  pub delivery_id : ℕ
  pub attempt_number : ℕ
  pub started_at : ℕ
  pub completed_at : ℕ
  pub status : ResultStatus
  pub http_status_code : Option ℕ
  pub latency_ms : ℕ
  pub error_code : Option Bytes
  pub error_message : Option Bytes
  pub response_headers : List (Bytes × Bytes)
  pub response_body : Bytes

pub record Tables : Type 0 where
  pub deliveries : List Delivery
  pub attempts : List Attempt

-- What the schema has of a unique index over (event_id, endpoint_id): over all rows, over the
-- rows that are no replay, or none.
pub data UniqueIndex : Type 0 where
  total originals absent : UniqueIndex

-- delivery-service/migrations/001_init.sql: idx_deliveries_original_event_endpoint.
abbrev pub migration_index : UniqueIndex
migration_index = originals

-- The two clocks that a handler reads: time.Now() of the process and NOW() of its transaction.
pub record Clock : Type 0 where
  pub now : ℕ
  pub db_now : ℕ

abbrev pub is_waiting : Status → Bool
is_waiting pending = true
is_waiting retrying = true
is_waiting _ = false

abbrev pub is_in_progress : Status → Bool
is_in_progress in_progress = true
is_in_progress _ = false

abbrev pub is_retrying : Status → Bool
is_retrying retrying = true
is_retrying _ = false

-- status IN ('DELIVERED','FAILED','DLQ')
abbrev pub is_final : Status → Bool
is_final delivered = true
is_final failed = true
is_final dlq = true
is_final _ = false
