-- ===== src/Delivery/Operations.antt =====
-- What can happen to the tables of the delivery service, as one step function. The schema's index,
-- the driver, the decryptor and the network are fixed; all else varies from step to step.
use hookyard.Base.{ℕ, Bytes, Bool, Option, List, [], ◌∷◌}
use hookyard.Base.Session.{M, ◌>>=◌, pure}
use hookyard.Webhook.Client.{Network}
use hookyard.Delivery.Model.{
  EventAccepted, EndpointSnapshotWithId, Delivery, Tables, UniqueIndex, Clock,
}
use hookyard.Delivery.Repository.{create_deliveries}
use hookyard.Delivery.Claim.{claim_batch}
use hookyard.Delivery.Service.{deliver, replay}

-- A worker may deliver any delivery, also one that it claimed long ago.
pub data Operation : Type 0 where
  creates : (ℕ → ℕ) → Clock → EventAccepted → List EndpointSnapshotWithId → Operation
  claims : (ℕ → Bool) → Clock → Bytes → ℕ → ℕ → Operation
  delivers : ℕ → ℕ → Clock → Delivery → Operation
  replays : ℕ → Clock → ℕ → ℕ → Operation

-- What is outside the service.
pub record Environment : Type 0 where
  pub index : UniqueIndex
  pub multiplex : Bool
  pub decrypt : Bytes → Option Bytes
  pub network : Network

unfoldable pub perform : Environment → Operation → M Tables (Unit {0})
perform env (creates fresh c e eps) = create_deliveries env.index fresh c e eps
perform env (claims locked c worker limit lease) = do
  claimed ← claim_batch env.multiplex locked c worker limit lease
  pure tt
perform env (delivers latency random c d) = deliver env.decrypt env.network latency random c d
perform env (replays fresh c tenant_id id) = do
  new_id ← replay env.index fresh c tenant_id id
  pure tt

-- A history: each operation with the faults that it meets; errors are only logged.
unfoldable pub run : Environment → List (Operation × List Bool) → Tables → Tables
unfolding perform
run env [] t = t
run env ((op, faults) ∷ rest) t =
    run env rest (perform env op (record { db = t; faults = faults })).1.db
