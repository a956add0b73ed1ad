-- ===== src/Event/AtLeastOnce.antt =====
-- What the outbox of event-service/internal/outbox/publisher.go promises.
use hookyard.Base.{
  ℕ, ◌≡◌, sym, subst, Bytes, Bool, true, Option, none, some, List, [], ◌∷◌, ◌++◌, ◌==◌, ==_refl,
  is_some, All, All-map, All-update_to, if_rule, exists, exists-append_left, exists-append_last,
  arith,
}
use hookyard.Base.Session.{Session, Result, ok, err, call, query, for_each}
use hookyard.Base.Keeps.{
  Keeps, Keeps-then, Keeps-bind, Keeps-exec, Keeps-call, Keeps-pure, Keeps-query, Keeps-for_each,
  Turns-last,
}
use hookyard.Event.Store.{OutboxRow, Notation}
use hookyard.Event.Publisher.{
  Message, message_of, is_row, Wire, mark, failed_once, published, settle_row, settle_rows,
  keep_sent, publish_rows, publish_batch,
}

-- Kafka has a message for the row.
abbrev pub IsSent : List Message → ℕ → Type 0
IsSent sent id = exists (λ m. m.row_id == id) sent ≡ true

-- Every row that is marked as published has a message in Kafka.
abbrev pub MarkedIsSent : List Message → OutboxRow → Type 0
MarkedIsSent sent row = is_some row.published_at ≡ true → IsSent sent row.id

abbrev pub AllSent : List Message → List OutboxRow → Type 0
AllSent sent = All (MarkedIsSent sent)

AllSent-snoc :
    (sent : List Message) (m : Message) (rows : List OutboxRow)
    → AllSent sent rows
    → AllSent (sent ++ m ∷ []) rows
AllSent-snoc sent m rows = All-map _ _ rows (λ row h p. exists-append_left _ sent _ (h p))

is_row_id : (id : ℕ) (a : OutboxRow) → is_row id a ≡ true → a.id ≡ id
is_row_id id a h = ground arith

module _ (n : Notation) (now : ℕ) (refuses : ℕ → Option Bytes) (old : List OutboxRow) where
  -- Both the tables as they are and the tables that a rollback would restore.
  Sound : Wire → Type 0
  Sound w = AllSent w.sent w.tables.outbox × AllSent w.sent old

  -- Sound, and the row to be marked is in Kafka.
  Ready : ℕ → Wire → Type 0
  Ready id w = Sound w × IsSent w.sent id

  mark_published :
      (row : OutboxRow) (w : Wire) → Ready row.id w → Sound (mark (published now) row.id w)
  unfolding Sound Ready
  mark_published row w h = (
    All-update_to _ _ (is_row row.id) (published now) w.tables.outbox
        (λ a k.
          if_rule (MarkedIsSent w.sent) (is_row row.id a) _ _
            (λ hit p. subst (IsSent w.sent) (sym (is_row_id row.id a hit)) h.1) (λ miss. k))
        h.0.0,
    h.0.1,
  )

  mark_failed :
      (row : OutboxRow) (message : Bytes) (w : Wire)
      → Sound w
      → Sound (mark (failed_once message) row.id w)
  unfolding Sound
  mark_failed row message w h = (
    All-update_to _ _ (is_row row.id) (failed_once message) w.tables.outbox
        (λ a k. if_rule (MarkedIsSent w.sent) (is_row row.id a) _ _ (λ hit. k) (λ miss. k)) h.0,
    h.1,
  )

  settle_row-Keeps : (row : OutboxRow) (o : Option Bytes) → Keeps Sound (settle_row n now row o)
  unfolding settle_row message_of Sound Ready
  settle_row-Keeps row none s h =
      Turns-last (Ready row.id) Sound Sound _ _ (λ w k. k.0) (mark_published row)
        (record s { db = record (s.db) { sent = s.db.sent ++ message_of n row ∷ [] } })
        (
          (
            AllSent-snoc s.db.sent (message_of n row) s.db.tables.outbox h.0,
            AllSent-snoc s.db.sent (message_of n row) old h.1,
          ),
          exists-append_last _ s.db.sent (message_of n row) (==_refl row.id),
        )
  settle_row-Keeps row (some message) s h = Keeps-exec Sound _ _ (mark_failed row message) s h

  settle_rows-Keeps : (rows : List OutboxRow) → Keeps Sound (settle_rows n now refuses rows)
  unfolding settle_rows
  settle_rows-Keeps [] = Keeps-pure Sound tt
  settle_rows-Keeps (row ∷ rest) =
      Keeps-then Sound _ _ (settle_row-Keeps row (refuses row.id)) (settle_rows-Keeps rest)

  publish_rows-Keeps : (locked : ℕ → Bool) → Keeps Sound (publish_rows n locked refuses now)
  unfolding publish_rows
  publish_rows-Keeps locked = Keeps-then Sound (call _) _ (Keeps-call Sound _) (
      Keeps-bind Sound (query _ _) _ (Keeps-query Sound _ _) (λ rows.
        Keeps-then Sound (for_each rows _) _ (Keeps-for_each Sound rows _ (λ _. Keeps-call Sound _))
          (Keeps-then Sound (settle_rows n now refuses rows) _ (settle_rows-Keeps rows)
            (Keeps-call Sound _))))

-- Whatever fails, a batch keeps this: every row marked as published has a message in Kafka. In
-- particular, a mark is undone with its transaction, and a message is not.
pub publish_batch-AllSent :
    (n : Notation) (locked : ℕ → Bool) (refuses : ℕ → Option Bytes) (now : ℕ) (s : Session Wire)
    → AllSent s.db.sent s.db.tables.outbox
    → AllSent
        (publish_batch n locked refuses now s).1.db.sent
        (publish_batch n locked refuses now s).1.db.tables.outbox
unfolding publish_batch Sound
publish_batch-AllSent n locked refuses now s h =
    finish _ (publish_rows-Keeps n now refuses old locked s (h, h))
  where
    old : List OutboxRow
    old = s.db.tables.outbox

    finish :
        (r : Result (Unit {0}) × Session Wire)
        → Sound n now refuses old r.1.db
        → AllSent (keep_sent s.db r).1.db.sent (keep_sent s.db r).1.db.tables.outbox
    finish (ok u, t) k = k.0
    finish (err e, t) k = k.1
