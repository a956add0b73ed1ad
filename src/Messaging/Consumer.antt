-- ===== src/Messaging/Consumer.antt =====
-- Run of delivery-service/internal/kafka/consumer.go over one partition: a loop over the messages
-- of the log. `offset` is where the reader stands, `committed` the offset from which a restarted
-- consumer reads on.
use hookyard.Base.{ℕ, suc, Bool, true, false, List, [], ◌∷◌, ◌++◌, ltb, if◌then◌else◌}

pub record Reader : Type 0 where
  pub offset : ℕ
  pub committed : ℕ
  -- The offsets of the messages on which the handler succeeded.
  pub processed : List ℕ

-- What happens to one message: fetching it fails, the handler fails, committing it fails, or all
-- is well.
pub data Turn : Type 0 where
  fetch_fails : Turn
  handler_fails : Turn
  commit_fails : Turn
  succeeds : Turn

-- CommitMessages of a message commits the offset behind it, unless a later one is committed.
abbrev pub commit : ℕ → ℕ → ℕ
commit offset committed = if ltb committed (suc offset) then suc offset else committed

abbrev pub fetched : Reader → Reader
fetched r = record r { offset = suc r.offset }

abbrev pub handled : Reader → Reader
handled r = record (fetched r) { processed = r.processed ++ r.offset ∷ [] }

-- One turn of the loop: whether Run goes on, and where the reader stands.
unfoldable pub turn : Turn → Reader → Bool × Reader
turn fetch_fails r = (false, r)
turn handler_fails r = (true, fetched r)
turn commit_fails r = (false, handled r)
turn succeeds r = (true, record (handled r) { committed = commit r.offset r.committed })

-- The loop, until Run returns or the given turns are over.
unfoldable pub consume : List Turn → Reader → Reader
unfolding turn
consume [] r = r
consume (t ∷ rest) r =
    let next = consume rest (turn t r).1 in if (turn t r).0 then next else (turn t r).1

-- A restarted consumer reads from the committed offset.
abbrev pub restart : Reader → Reader
restart r = record r { offset = r.committed }
