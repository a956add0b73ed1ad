-- ===== src/Delivery/Claim.antt =====
-- ClaimBatch of delivery-service/internal/delivery/repository.go. `locked` says which rows other
-- transactions hold (SKIP LOCKED). `multiplex` says whether the driver accepts a statement on a
-- connection whose result set is still being read; pgx documents that it does not ("conn busy").
use hookyard.Base.{
  ℕ, suc, ◌+◌, Bytes, Bool, true, false, not, ◌&&◌, ◌||◌, Option, none, some, List, [], ◌∷◌, ltb,
  leb, ◌==◌, take, select, update, order_by,
}
use hookyard.Base.Session.{other, M, ◌>>=◌, ◌>>◌, pure, throw, call, exec, query, transaction}
use hookyard.Delivery.Model.{in_progress, Delivery, Tables, Clock, is_waiting, is_in_progress}
use hookyard.Delivery.Repository.{has_id}

-- lease_expires_at < NOW(), which NULL is not.
abbrev pub lease_over : ℕ → Option ℕ → Bool
lease_over now none = false
lease_over now (some t) = ltb t now

unfoldable pub due : ℕ → Delivery → Bool
due now d =
    (is_waiting d.status && leb d.next_attempt_at now)
    || (is_in_progress d.status && lease_over now d.lease_expires_at)

-- ORDER BY next_attempt_at, created_at
abbrev pub claim_order : Delivery → Delivery → Bool
claim_order a b =
    ltb a.next_attempt_at b.next_attempt_at
    || (a.next_attempt_at == b.next_attempt_at && ltb a.created_at b.created_at)

unfoldable pub claim_query : (ℕ → Bool) → ℕ → ℕ → List Delivery → List Delivery
claim_query locked limit now ds =
    take limit (order_by claim_order (select (λ d. due now d && not (locked d.id)) ds))

-- 30 * time.Second
abbrev pub claim_lease : ℕ
claim_lease = 30_000_000_000

-- What the UPDATE of the loop sets on the row.
abbrev pub leased : Clock → Bytes → Delivery → Delivery
leased c worker d = record d {
  status = in_progress;
  lease_owner = some worker;
  lease_expires_at = some (c.now + claim_lease);
  attempt_count = suc d.attempt_count;
  last_attempt_at = some c.now;
  updated_at = c.db_now;
}

-- What the caller gets: the row as it was read, with the new count and the time of the attempt.
abbrev pub claimed : Clock → Delivery → Delivery
claimed c d = record d { attempt_count = suc d.attempt_count; last_attempt_at = some c.now }

abbrev pub refuse_if_busy : Bool → M Tables (Unit {0})
refuse_if_busy true = pure tt
refuse_if_busy false = throw (other "lease delivery: conn busy")

-- The loop over the rows: scan a row, lease it, collect it.
unfoldable pub claim_rows : Bool → Clock → Bytes → List Delivery → M Tables (List Delivery)
claim_rows multiplex c worker [] = pure []
claim_rows multiplex c worker (d ∷ rest) = do
  call (other "scan delivery")
  refuse_if_busy multiplex
  exec (other "lease delivery")
      (λ t. record t { deliveries = update (has_id d.id) (leased c worker) t.deliveries })
  others ← claim_rows multiplex c worker rest
  pure (claimed c d ∷ others)

-- The last argument is the lease that the caller asks for, which the body does not read.
unfoldable pub claim_batch : Bool → (ℕ → Bool) → Clock → Bytes → ℕ → ℕ → M Tables (List Delivery)
unfolding claim_query
claim_batch multiplex locked c worker limit lease =
    transaction (other "begin") (other "commit claim") (do
      rows ← query (other "claim query") (λ t. claim_query locked limit c.db_now t.deliveries)
      ds ← claim_rows multiplex c worker rows
      call (other "claim rows")
      pure ds)
