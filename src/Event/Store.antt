-- ===== src/Event/Store.antt =====
-- event-service/internal/event/repository.go, service.go and model.go, with the tables of
-- event-service/migrations/001_init.sql.
use hookyard.Base.{
  ℕ, Bytes, bytes, bytes_eq, Bool, ◌&&◌, ◌||◌, Option, none, some, List, [], ◌∷◌, ◌++◌, ◌==◌,
  if◌then◌else◌, is_empty, find, exists,
}
use mathlib.Core.Option.{map as map_option}
use hookyard.Base.Session.{Error, other, M, ◌>>=◌, ◌>>◌, pure, throw, query, attempt, call, scoped}
use hookyard.Json.{Json, text, object, field, end}

-- `created_at` of an event that was just built is the zero time, 0.
pub record Event : Type 0 where
  pub id : ℕ
  pub tenant_id : ℕ
  pub type : Bytes
  pub payload : Bytes
  pub occurred_at : Option ℕ
  pub source : Option Bytes
  pub metadata : Option Bytes
  pub created_at : ℕ

pub record PublishRequest : Type 0 where
  pub type : Bytes
  pub idempotency_key : Bytes
  pub content : Bytes
  pub occurred_at : Option ℕ
  pub source : Option Bytes
  pub metadata : Bytes

-- A row of `event_idempotency`.
pub record IdempotencyRow : Type 0 where
  pub tenant_id : ℕ
  pub idempotency_key : Bytes
  pub event_id : ℕ

-- A row of `outbox`. Of its JSONB payload the model keeps the value.
pub record OutboxRow : Type 0 where
  pub id : ℕ
  pub aggregate_type : Bytes
  pub aggregate_id : ℕ
  pub event_type : Bytes
  pub payload : Json
  pub created_at : ℕ
  pub published_at : Option ℕ
  pub attempts : ℕ
  pub last_error : Option Bytes

pub record Tables : Type 0 where
  pub events : List Event
  pub idempotency : List IdempotencyRow
  pub outbox : List OutboxRow

-- How uuid.UUID and time.Time are written as text; what a JSONB column keeps of a JSON text, if
-- PostgreSQL takes it, and a TIMESTAMPTZ column of an instant, which it holds in microseconds.
pub record Notation : Type 0 where
  pub show_uuid : ℕ → Bytes
  pub show_time : ℕ → Bytes
  pub jsonb : Bytes → Option Bytes
  pub timestamptz : ℕ → ℕ

-- What the driver and the database draw for one call: uuid.New(), gen_random_uuid() and NOW().
pub record Draw : Type 0 where
  pub event_id : ℕ
  pub outbox_id : ℕ
  pub db_now : ℕ

abbrev pub is_invalid : PublishRequest → Bool
is_invalid req = is_empty req.type || (is_empty req.idempotency_key || is_empty req.content)

-- nullableJSON
abbrev pub nullable_json : Bytes → Option Bytes
nullable_json [] = none
nullable_json (b ∷ bs) = some (b ∷ bs)

abbrev pub new_event : Draw → PublishRequest → ℕ → Event
new_event draw req tenant_id = record {
  id = draw.event_id;
  tenant_id = tenant_id;
  type = req.type;
  payload = req.content;
  occurred_at = req.occurred_at;
  source = req.source;
  metadata = nullable_json req.metadata;
  created_at = 0;
}

abbrev pub same_key : ℕ → Bytes → IdempotencyRow → Bool
same_key tenant_id key row = (row.tenant_id == tenant_id) && bytes_eq row.idempotency_key key

abbrev pub is_event : ℕ → ℕ → Event → Bool
is_event tenant_id id e = (e.id == id) && (e.tenant_id == tenant_id)

-- A nullable JSONB column.
abbrev pub nullable_jsonb : Notation → Option Bytes → Option (Option Bytes)
nullable_jsonb n none = some none
nullable_jsonb n (some json) = map_option (λ j. some j) (n.jsonb json)

-- The row of an event whose payload and metadata are taken; `created_at` defaults to NOW().
abbrev pub event_row : Notation → Draw → Event → Option Bytes → Option (Option Bytes) → Option Event
event_row n draw e none metadata = none
event_row n draw e (some payload) none = none
event_row n draw e (some payload) (some metadata) = some (record e {
  payload = payload;
  occurred_at = map_option n.timestamptz e.occurred_at;
  metadata = metadata;
  created_at = draw.db_now;
})

abbrev pub add_event : Tables → Option Event → Option Tables
add_event t none = none
add_event t (some row) = some (record t { events = t.events ++ row ∷ [] })

-- `id` is the primary key.
unfoldable pub insert_event : Notation → Draw → Event → Tables → Option Tables
insert_event n draw e t =
    if exists (λ x. x.id == e.id) t.events
    then none
    else add_event t (event_row n draw e (n.jsonb e.payload) (nullable_jsonb n e.metadata))

-- (tenant_id, idempotency_key) is the primary key.
unfoldable pub insert_key : ℕ → Bytes → ℕ → Tables → Option Tables
insert_key tenant_id key event_id t =
    if exists (same_key tenant_id key) t.idempotency
    then none
    else some (record t {
      idempotency =
          t.idempotency
          ++ record { tenant_id = tenant_id; idempotency_key = key; event_id = event_id } ∷ [];
    })

-- The map that is marshalled: encoding/json writes its keys in order.
abbrev pub outbox_payload : Notation → Event → Json
outbox_payload n e = object (
    field (bytes "event_id") (text (n.show_uuid e.id)) (
      field (bytes "event_type") (text e.type) (
        field (bytes "occurred_at") (text (n.show_time e.created_at))
          (field (bytes "tenant_id") (text (n.show_uuid e.tenant_id)) end))))

abbrev pub outbox_row : Notation → Draw → Event → OutboxRow
outbox_row n draw e = record {
  id = draw.outbox_id;
  aggregate_type = bytes "event";
  aggregate_id = e.id;
  event_type = bytes "EventAccepted";
  payload = outbox_payload n e;
  created_at = draw.db_now;
  published_at = none;
  attempts = 0;
  last_error = none;
}

unfoldable pub insert_outbox : OutboxRow → Tables → Option Tables
insert_outbox row t =
    if exists (λ x. x.id == row.id) t.outbox
    then none
    else some (record t { outbox = t.outbox ++ row ∷ [] })

abbrev pub or_missing : Option Event → M Tables Event
or_missing none = throw (other "get event")
or_missing (some e) = pure e

-- getEventTx, and GetByID, which runs the same query outside a transaction.
unfoldable pub get_event : ℕ → ℕ → M Tables Event
get_event tenant_id id = do
  found ← query (other "get event") (λ t. find (is_event tenant_id id) t.events)
  or_missing found

-- The three inserts and their commit.
unfoldable pub insert_all : Notation → Draw → PublishRequest → ℕ → M Tables Event
insert_all n draw req tenant_id = do
  attempt (other "insert event") (insert_event n draw (new_event draw req tenant_id))
  attempt (other "insert idempotency record")
      (insert_key tenant_id req.idempotency_key draw.event_id)
  attempt (other "insert outbox event")
      (insert_outbox (outbox_row n draw (new_event draw req tenant_id)))
  call (other "commit transaction")
  pure (new_event draw req tenant_id)

abbrev pub known_or_new :
    Notation → Draw → PublishRequest → ℕ → Option IdempotencyRow → M Tables Event
known_or_new n draw req tenant_id none = insert_all n draw req tenant_id
known_or_new n draw req tenant_id (some row) = get_event tenant_id row.event_id

unfoldable pub create_event : Notation → Draw → PublishRequest → ℕ → M Tables Event
create_event n draw req tenant_id =
    if is_invalid req
    then throw (Error.invalid "invalid event request")
    else scoped (other "begin transaction") (do
      found ←
          query (other "check idempotency")
            (λ t. find (same_key tenant_id req.idempotency_key) t.idempotency)
      known_or_new n draw req tenant_id found)

-- Service.Publish repeats the checks of the repository.
unfoldable pub publish : Notation → Draw → ℕ → PublishRequest → M Tables Event
publish n draw tenant_id req =
    if is_empty req.type
    then throw (Error.invalid "invalid event request")
    else if is_empty req.idempotency_key
    then throw (Error.invalid "invalid event request")
    else if is_empty req.content
    then throw (Error.invalid "invalid event request")
    else create_event n draw req tenant_id
