-- ===== src/Outbox/Relay.antt =====
-- endpoint-service/internal/outbox/repository.go and relay.go. Kafka is an input: `refuses` says
-- which messages the publisher fails to write. Intervals are whole nanoseconds here.
use hookyard.Base.{
  ℕ, suc, ◌+◌, ◌-◌, ◌*◌, ◌^◌, Bytes, bytes_eq, Bool, true, false, not, ◌&&◌, ◌||◌, Option, none,
  some, List, [], ◌∷◌, ◌++◌, ◌==◌, ltb, leb, if◌then◌else◌, is_none, take, select, order_by, update,
  exists,
}
use hookyard.Base.Session.{
  Result, ok, err, other, Session, M, ◌>>=◌, ◌>>◌, pure, call, query, exec, attempt, for_each,
  transaction,
}

-- A row of `outbox_messages`.
pub record Row : Type 0 where
  pub id : ℕ
  pub topic : Bytes
  pub key : Bytes
  pub payload : Bytes
  pub attempts : ℕ
  pub available_at : ℕ
  pub locked_by : Option Bytes
  pub locked_until : Option ℕ
  pub published_at : Option ℕ
  pub created_at : ℕ

-- The rows together with the ids of the messages that Kafka has taken.
pub record Queue : Type 0 where
  pub rows : List Row
  pub sent : List ℕ

abbrev pub has_id : ℕ → Row → Bool
has_id id row = row.id == id

-- Enqueue, in the transaction of its caller; `id` is what uuid.New() returns.
unfoldable pub enqueue : ℕ → ℕ → Bytes → Bytes → Bytes → M Queue ℕ
enqueue id now topic key payload = do
  attempt (other "insert outbox message") (λ q.
      if exists (has_id id) q.rows
      then none
      else some (record q {
        rows =
            q.rows
            ++ record {
              id = id;
              topic = topic;
              key = key;
              payload = payload;
              attempts = 0;
              available_at = now;
              locked_by = none;
              locked_until = none;
              published_at = none;
              created_at = now;
            }
              ∷ [];
      }))
  pure id

-- locked_until IS NULL OR locked_until < NOW()
abbrev pub unlocked : ℕ → Option ℕ → Bool
unlocked now none = true
unlocked now (some t) = ltb t now

unfoldable pub ready : ℕ → Row → Bool
ready now row =
    is_none row.published_at && (leb row.available_at now && unlocked now row.locked_until)

-- ORDER BY created_at, id
abbrev pub oldest_first : Row → Row → Bool
oldest_first a b =
    ltb a.created_at b.created_at || ((a.created_at == b.created_at) && ltb a.id b.id)

-- `held` says which rows other transactions hold (SKIP LOCKED).
unfoldable pub claimable : (ℕ → Bool) → ℕ → ℕ → List Row → List Row
claimable held limit now rows =
    take limit (order_by oldest_first (select (λ r. ready now r && not (held r.id)) rows))

abbrev pub locked : Bytes → ℕ → Row → Row
locked worker until row = record row {
  locked_by = some worker;
  locked_until = some until;
  attempts = suc row.attempts;
}

abbrev pub write : (Row → Bool) → (Row → Row) → Queue → Queue
write p f q = record q { rows = update p f q.rows }

-- Claim: the messages as they were read, before the attempt was counted.
unfoldable pub claim : (ℕ → Bool) → ℕ → Bytes → ℕ → ℕ → M Queue (List Row)
unfolding claimable
claim held now worker limit lease = transaction (other "begin") (other "commit") (do
  msgs ← query (other "claim outbox rows") (λ q. claimable held limit now q.rows)
  for_each msgs (λ _. call (other "scan"))
  for_each msgs (λ m. exec (other "lock") (write (has_id m.id) (locked worker (now + lease))))
  pure msgs)

-- WHERE id = $1 AND locked_by = $2
abbrev pub locked_to : ℕ → Bytes → Row → Bool
locked_to id worker row = has_id id row && held_by row.locked_by
  where
    held_by : Option Bytes → Bool
    held_by none = false
    held_by (some w) = bytes_eq w worker

abbrev pub published : ℕ → Row → Row
published now row = record row { published_at = some now; locked_by = none; locked_until = none }

unfoldable pub mark_published : ℕ → ℕ → Bytes → M Queue (Unit {0})
mark_published now id worker =
    exec (other "mark published") (write (locked_to id worker) (published now))

abbrev pub released : ℕ → Row → Row
released until row = record row { available_at = until; locked_by = none; locked_until = none }

unfoldable pub release : ℕ → ℕ → Bytes → ℕ → M Queue (Unit {0})
release now id worker delay =
    exec (other "release") (write (locked_to id worker) (released (now + delay)))

-- retryDelay: a doubling number of seconds, at most 300.
unfoldable pub retry_delay : ℕ → ℕ
retry_delay attempts =
    let seconds = 2 ^ ((if ltb attempts 1 then 1 else attempts) - 1) in
    (if ltb 300 seconds then 300 else seconds) * 1_000_000_000

-- An error that is only logged.
abbrev pub logged : M Queue (Unit {0}) → M Queue (Unit {0})
logged m s = (ok tt, (m s).1)

abbrev pub send_message : ℕ → M Queue (Unit {0})
send_message id s = (ok tt, record s { db = record (s.db) { sent = s.db.sent ++ id ∷ [] } })

-- One turn of the loop of flush.
unfoldable pub relay : (ℕ → Bool) → ℕ → Bytes → Row → M Queue (Unit {0})
unfolding retry_delay
relay refuses now worker m =
    if refuses m.id
    then logged (release now m.id worker (retry_delay m.attempts))
    else (do send_message m.id; logged (mark_published now m.id worker))

abbrev pub relay_claimed :
    (ℕ → Bool) → ℕ → Bytes → Result (List Row) × Session Queue → Session Queue
relay_claimed refuses now worker (err e, s) = s
relay_claimed refuses now worker (ok msgs, s) = (for_each msgs (relay refuses now worker) s).1

-- flush, whose error is only logged.
unfoldable pub flush : (ℕ → Bool) → (ℕ → Bool) → ℕ → Bytes → ℕ → ℕ → Session Queue → Session Queue
flush held refuses now worker batch_size lease s =
    relay_claimed refuses now worker (claim held now worker batch_size lease s)
