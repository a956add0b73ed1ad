-- ===== src/Event/Publisher.antt =====
-- event-service/internal/outbox/publisher.go: one batch of the outbox. Kafka is an input: `refuses`
-- gives the error with which it refuses the message of a row, if it does.
use hookyard.Base.{
  ℕ, suc, Bytes, bytes, Bool, ◌&&◌, not, Option, none, some, List, [], ◌∷◌, ◌++◌, ◌==◌, ltb,
  is_none, take, select, order_by, update,
}
use hookyard.Base.Session.{
  other, Result, ok, err, Session, M, ◌>>=◌, ◌>>◌, pure, call, query, exec, for_each,
}
use hookyard.Json.{Json, text, object, field, end}
use hookyard.Event.Store.{OutboxRow, Tables, Notation}

-- What is written for a row: its key and its value.
pub record Message : Type 0 where
  pub row_id : ℕ
  pub key : Bytes
  pub value : Json

unfoldable pub message_of : Notation → OutboxRow → Message
message_of n row = record {
  row_id = row.id;
  key = n.show_uuid row.aggregate_id;
  value = object (
      field (bytes "id") (text (n.show_uuid row.id)) (
        field (bytes "event_type") (text row.event_type) (
          field (bytes "aggregate_type") (text row.aggregate_type) (
            field (bytes "aggregate_id") (text (n.show_uuid row.aggregate_id))
              (field (bytes "payload") row.payload end)))));
}

abbrev pub oldest_first : OutboxRow → OutboxRow → Bool
oldest_first a b = ltb a.created_at b.created_at

unfoldable pub pending : (ℕ → Bool) → List OutboxRow → List OutboxRow
pending locked rows =
    take 100
      (order_by oldest_first (select (λ r. is_none r.published_at && not (locked r.id)) rows))

abbrev pub is_row : ℕ → OutboxRow → Bool
is_row id row = row.id == id

-- The tables together with what Kafka has taken: a rollback does not take that back.
pub record Wire : Type 0 where
  pub tables : Tables
  pub sent : List Message

abbrev pub mark : (OutboxRow → OutboxRow) → ℕ → Wire → Wire
mark f id w = record w {
  tables = record (w.tables) { outbox = update (is_row id) f w.tables.outbox };
}

abbrev pub send_message : Message → M Wire (Unit {0})
send_message m s = (ok tt, record s { db = record (s.db) { sent = s.db.sent ++ m ∷ [] } })

abbrev pub failed_once : Bytes → OutboxRow → OutboxRow
failed_once message row = record row { attempts = suc row.attempts; last_error = some message }

abbrev pub published : ℕ → OutboxRow → OutboxRow
published now row = record row { published_at = some now }

-- One turn of the loop, given what WriteMessages returned.
unfoldable pub settle_row : Notation → ℕ → OutboxRow → Option Bytes → M Wire (Unit {0})
settle_row n now row none = do
  send_message (message_of n row)
  exec (other "mark outbox published") (mark (published now) row.id)
settle_row n now row (some message) =
    exec (other "update failed outbox") (mark (failed_once message) row.id)

unfoldable pub settle_rows : Notation → ℕ → (ℕ → Option Bytes) → List OutboxRow → M Wire (Unit {0})
settle_rows n now refuses [] = pure tt
settle_rows n now refuses (row ∷ rest) = do
  settle_row n now row (refuses row.id)
  settle_rows n now refuses rest

abbrev pub keep_sent : Wire → Result (Unit {0}) × Session Wire → Result (Unit {0}) × Session Wire
keep_sent old (ok u, s) = (ok u, s)
keep_sent old (err e, s) = (err e, record s { db = record (s.db) { tables = old.tables } })

-- The body of publishBatch, between its Begin and its Commit.
unfoldable pub publish_rows : Notation → (ℕ → Bool) → (ℕ → Option Bytes) → ℕ → M Wire (Unit {0})
unfolding pending
publish_rows n locked refuses now = do
  call (other "begin transaction")
  rows ← query (other "query outbox") (λ w. pending locked w.tables.outbox)
  for_each rows (λ _. call (other "scan outbox"))
  settle_rows n now refuses rows
  call (other "commit")

-- publishBatch: the deferred rollback restores the tables alone.
unfoldable pub publish_batch : Notation → (ℕ → Bool) → (ℕ → Option Bytes) → ℕ → M Wire (Unit {0})
publish_batch n locked refuses now s = keep_sent s.db (publish_rows n locked refuses now s)
