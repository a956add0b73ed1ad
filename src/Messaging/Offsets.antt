-- ===== src/Messaging/Offsets.antt =====
-- Which messages of a partition delivery-service/internal/kafka/consumer.go loses.
use hookyard.Base.{
  ℕ, suc, ◌<◌, ◌≤◌, ◌≡◌, refl, ◌≢◌, Bool, true, false, List, [], ◌∷◌, ◌++◌, ltb, Bool-cases, inl,
  inr, All, All-map, All-append, exists, exists-append_left, exists-append_last, if_rule, ◌==◌,
  arith,
}
use hookyard.Messaging.Consumer.{
  Reader, Turn, fetch_fails, handler_fails, commit_fails, succeeds, fetched, turn, consume, restart,
}

-- Behind the offset `o`, which was not processed: nothing is committed since `c`, or it is past `o`.
Passed : ℕ → ℕ → Reader → Type 0
Passed o c r = (o < r.offset) × All (λ x. x ≢ o) r.processed × (r.committed ≢ c → o < r.committed)

turn-Passed : (o c : ℕ) (t : Turn) (r : Reader) → Passed o c r → Passed o c (turn t r).1
unfolding turn Passed
turn-Passed o c fetch_fails r h = h
turn-Passed o c handler_fails r h = (omega (arith, h.0), h.1, h.2)
turn-Passed o c commit_fails r h =
    (omega (arith, h.0), All-append _ r.processed _ h.1 ((λ e. omega (arith, h.0)), tt), h.2)
turn-Passed o c succeeds r h = (
  omega (arith, h.0),
  All-append _ r.processed _ h.1 ((λ e. omega (arith, h.0)), tt),
  (λ moved. ground (arith, h.0)),
)

consume-Passed : (o c : ℕ) (ts : List Turn) (r : Reader) → Passed o c r → Passed o c (consume ts r)
unfolding consume
consume-Passed o c [] r h = h
consume-Passed o c (t ∷ rest) r h =
    if_rule (Passed o c) (turn t r).0 _ _
      (λ on. consume-Passed o c rest (turn t r).1 (turn-Passed o c t r h))
      (λ over. turn-Passed o c t r h)

-- A message on which the handler failed is lost as soon as anything is committed after it: it has
-- not been processed, and a restarted consumer reads on behind it. The condition is that the reader
-- has processed only messages before the offset at which it stands.
pub failed_message_lost :
    (ts : List Turn) (r : Reader)
    → All (λ o. o < r.offset) r.processed
    → (consume (handler_fails ∷ ts) r).committed ≢ r.committed
    → (r.offset < (restart (consume (handler_fails ∷ ts) r)).offset)
      × All (λ o. o ≢ r.offset) (consume (handler_fails ∷ ts) r).processed
unfolding consume turn Passed
failed_message_lost ts r ahead moved =
    let after = consume-Passed r.offset r.committed ts (fetched r) (
      omega arith,
      All-map _ _ r.processed (λ x lt e. omega arith) ahead,
      (λ m. absurd (m refl)),
    ) in
    (after.2 moved, after.1)

abbrev pub is_failure : Turn → Bool
is_failure handler_fails = true
is_failure _ = false

-- Once the reader is past the offset `o`, `o` has been processed.
Seen : ℕ → Reader → Type 0
Seen o r = (r.committed ≤ r.offset) × (o < r.offset → exists (λ x. x == o) r.processed ≡ true)

handled-Seen :
    (o : ℕ) (r : Reader)
    → Seen o r
    → o < suc r.offset
    → exists (λ x. x == o) (r.processed ++ r.offset ∷ []) ≡ true
unfolding Seen
handled-Seen o r h lt = elim (Bool-cases (ltb o r.offset)) [
  | inl before ↦ exists-append_left _ r.processed _ (h.1 (ground arith))
  | inr here ↦ exists-append_last _ r.processed r.offset (ground arith)
]

turn-Seen : (o : ℕ) (t : Turn) (r : Reader) → is_failure t ≡ false → Seen o r → Seen o (turn t r).1
unfolding turn Seen
turn-Seen o fetch_fails r no_failure h = h
turn-Seen o handler_fails r no_failure h = cc
turn-Seen o commit_fails r no_failure h = (omega (arith, h.0), handled-Seen o r h)
turn-Seen o succeeds r no_failure h = (ground (arith, h.0), handled-Seen o r h)

consume-Seen :
    (o : ℕ) (ts : List Turn) (r : Reader)
    → exists is_failure ts ≡ false
    → Seen o r
    → Seen o (consume ts r)
unfolding consume exists
consume-Seen o [] r no_failure h = h
consume-Seen o (t ∷ rest) r no_failure h =
    let first : is_failure t ≡ false = ground arith in
    let others : exists is_failure rest ≡ false = ground arith in
    if_rule (Seen o) (turn t r).0 _ _
      (λ on. consume-Seen o rest (turn t r).1 others (turn-Seen o t r first h))
      (λ over. turn-Seen o t r first h)

-- A consumer whose handler never fails, though fetching and committing may, skips nothing: every
-- offset from its start up to the one it would resume from has been processed.
pub nothing_skipped :
    (ts : List Turn) (r : Reader) (o : ℕ)
    → exists is_failure ts ≡ false
    → r.committed ≤ r.offset
    → r.offset ≤ o
    → o < (restart (consume ts r)).offset
    → exists (λ x. x == o) (consume ts r).processed ≡ true
unfolding Seen
nothing_skipped ts r o no_failure behind from_start lt =
    let seen = consume-Seen o ts r no_failure (behind, (λ early. absurd (omega arith))) in
    seen.1 (omega (arith, seen.0))
