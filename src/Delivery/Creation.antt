-- ===== src/Delivery/Creation.antt =====
-- Creating the deliveries of an event: CreateDeliveries of
-- delivery-service/internal/delivery/repository.go.
use hookyard.Base.{ℕ, ◌≡◌, refl, ◌≢◌, some, List, ◌∷◌}
use hookyard.Base.Session.{Result, err, Session, Error, ok, attempt, for_each}
use hookyard.Base.Ensures.{
  Ensures, Ensures-then, Ensures-attempt, Ensures-const, Ensures-transaction, Ensures-use,
  transaction_err,
}
use hookyard.Delivery.Model.{
  EventAccepted, EndpointSnapshotWithId, Delivery, Tables, UniqueIndex, total, originals, absent,
  Clock,
}
use hookyard.Delivery.Repository.{insert_or_skip, original, create_deliveries}

-- ON CONFLICT (event_id, endpoint_id) wants an index over all rows.
insert_or_skip-total :
    (index : UniqueIndex) (row : Delivery) (t t' : Tables)
    → insert_or_skip index row t ≡ some t'
    → index ≡ total
unfolding insert_or_skip
insert_or_skip-total total row t t' e = refl
insert_or_skip-total originals row t t' e = cc
insert_or_skip-total absent row t t' e = cc

module _ (index : UniqueIndex) (fresh : ℕ → ℕ) (c : Clock) (e : EventAccepted) where
  -- Only a unique index over all rows lets an event with any endpoint through.
  total_loop-Ensures :
      (ep : EndpointSnapshotWithId) (eps : List EndpointSnapshotWithId)
      → Ensures
          (λ _. Unit {0})
          (for_each (ep ∷ eps) (λ ep.
            attempt (Error.other "create delivery") (insert_or_skip index (original fresh c e ep))))
          (λ _ _. index ≡ total)
  unfolding for_each
  total_loop-Ensures ep eps =
      Ensures-then (λ _. Unit {0}) (λ _. index ≡ total) (λ _ _. index ≡ total) (attempt _ _) _
        (Ensures-attempt (λ _. Unit {0}) (λ _. index ≡ total) _ _
          (λ t t' q u. insert_or_skip-total index (original fresh c e ep) t t' q))
        (Ensures-const (index ≡ total) _)

-- Where an event is accepted for some endpoint, the unique index is over all rows.
pub create_deliveries-total :
    (index : UniqueIndex) (fresh : ℕ → ℕ) (c : Clock) (e : EventAccepted)
    (ep : EndpointSnapshotWithId) (eps : List EndpointSnapshotWithId) (s s' : Session Tables)
    → create_deliveries index fresh c e (ep ∷ eps) s ≡ (ok tt, s')
    → index ≡ total
unfolding create_deliveries
create_deliveries-total index fresh c e ep eps s s' q =
    Ensures-use _ (λ _ _. index ≡ total) _ s s' tt
      (Ensures-transaction (λ _. Unit {0}) (λ _ _. index ≡ total) _ _ _
        (total_loop-Ensures index fresh c e ep eps))
      tt q

-- Where the unique index is not over all rows, and the one of the migration is not, accepting an event
-- for at least one endpoint is an error, and stores nothing.
pub create_deliveries-refused :
    (index : UniqueIndex) (fresh : ℕ → ℕ) (c : Clock) (e : EventAccepted)
    (ep : EndpointSnapshotWithId) (eps : List EndpointSnapshotWithId) (s s' : Session Tables)
    (r : Result (Unit {0}))
    → index ≢ total
    → create_deliveries index fresh c e (ep ∷ eps) s ≡ (r, s')
    → (x : Error) × (r ≡ err x) × (s'.db ≡ s.db)
unfolding create_deliveries
create_deliveries-refused index fresh c e ep eps s s' (ok tt) partial q =
    absurd (partial (create_deliveries-total index fresh c e ep eps s s' q))
create_deliveries-refused index fresh c e ep eps s s' (err x) partial q =
    (x, refl, transaction_err _ _ _ s s' x q)
