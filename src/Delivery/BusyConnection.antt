-- ===== src/Delivery/BusyConnection.antt =====
-- ClaimBatch of delivery-service/internal/delivery/repository.go on a connection that is busy with
-- the rows of its own query.
use hookyard.Base.{ℕ, ◌≡◌, refl, sym, ap, ◌∙◌, Bool, false, List, [], ◌∷◌, Bytes}
use hookyard.Base.Session.{Session, ok, call, query}
use hookyard.Base.Ensures.{
  Ensures, Ensures-bind, Ensures-then, Ensures-call, Ensures-query, Ensures-pure,
  Ensures-transaction, Ensures-use,
}
use hookyard.Delivery.Model.{Delivery, Tables, Clock}
use hookyard.Delivery.Claim.{claim_query, claim_rows, claim_batch}

claim_rows-Ensures_busy :
    (c : Clock) (worker : Bytes) (db : Tables) (rows : List Delivery)
    → Ensures
        (λ t. t ≡ db)
        (claim_rows false c worker rows)
        (λ ds t. (rows ≡ []) × (ds ≡ []) × (t ≡ db))
unfolding claim_rows
claim_rows-Ensures_busy c worker db [] s h = (refl, refl, h)
claim_rows-Ensures_busy c worker db (d ∷ rest) s h =
    Ensures-then _ (λ t. t ≡ db) _ (call _) _ (Ensures-call _ _) (λ t k. tt) s h

abbrev Idle : (ℕ → Bool) → Clock → ℕ → Tables → List Delivery → Tables → Type 0
Idle locked c limit db ds t =
    (claim_query locked limit c.db_now db.deliveries ≡ []) × (ds ≡ []) × (t ≡ db)

claim_batch-Ensures_busy :
    (locked : ℕ → Bool) (c : Clock) (worker : Bytes) (limit lease : ℕ) (db : Tables)
    → Ensures (λ t. t ≡ db) (claim_batch false locked c worker limit lease) (Idle locked c limit db)
unfolding claim_batch
claim_batch-Ensures_busy locked c worker limit lease db = Ensures-transaction _ Q _ _ _ (
    Ensures-bind _ R Q (query _ _) _
      (Ensures-query _ R _ _
        (λ t e. (ap (λ u. claim_query locked limit c.db_now u.deliveries) e, e)))
      (λ rows. λ s h.
        Ensures-bind _ _ Q (claim_rows false c worker rows) _
          (claim_rows-Ensures_busy c worker db rows)
          (λ ds.
            Ensures-then _ _ Q (call _) _ (Ensures-call _ _)
              (Ensures-pure _ Q ds (λ t k. (sym h.0 ∙ k.0, k.1, k.2))))
          s h.1))
  where
    Q : List Delivery → Tables → Type 0
    Q = Idle locked c limit db

    R : List Delivery → Tables → Type 0
    R rows t = (rows ≡ claim_query locked limit c.db_now db.deliveries) × (t ≡ db)

-- With a driver that refuses a statement while a result set is being read, as the driver in use is
-- documented to do, a claim succeeds only where the query finds no row to lease; it then returns
-- nothing and changes nothing.
pub claim_batch-busy :
    (locked : ℕ → Bool) (c : Clock) (worker : Bytes) (limit lease : ℕ) (s s' : Session Tables)
    (ds : List Delivery)
    → claim_batch false locked c worker limit lease s ≡ (ok ds, s')
    → (claim_query locked limit c.db_now s.db.deliveries ≡ []) × (ds ≡ []) × (s'.db ≡ s.db)
claim_batch-busy locked c worker limit lease s s' ds e =
    Ensures-use _ (Idle locked c limit s.db) _ s s' ds
      (claim_batch-Ensures_busy locked c worker limit lease s.db) refl e
