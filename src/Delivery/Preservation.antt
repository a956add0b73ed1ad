-- ===== src/Delivery/Preservation.antt =====
-- The rule for invariants of the delivery tables: what the single statements keep, every operation
-- and every history keep.
use hookyard.Base.{
  ◌≡◌, Bool, true, false, ℕ, Option, none, some, Bytes, List, [], ◌∷◌, ◌++◌, inl, inr,
  if◌then◌else◌, accepted, admitted, subst, exists, update, ◌⊎◌, arith,
}
use hookyard.Base.Session.{Error, M, query, attempt, throw}
use hookyard.Base.Keeps.{
  Keeps, Keeps-bind, Keeps-then, Keeps-pure, Keeps-query, Keeps-attempt, Keeps-transaction,
  Keeps-for_each,
}
use hookyard.Webhook.Client.{Network}
use hookyard.Attempt.{AttemptResult}
use hookyard.Delivery.Model.{
  EventAccepted, EndpointSnapshotWithId, Delivery, Attempt, Tables, UniqueIndex, total, originals,
  absent, Clock,
}
use hookyard.Delivery.Repository.{
  has_id, append_row, original, replay_row, leased_row, settled, settle, insert_or_skip, insert_row,
  insert_attempt, next_status, or_not_found, get, create_deliveries, create_replay,
  record_attempt_and_transition,
}
use hookyard.Delivery.Claim.{claim_batch}
use hookyard.Delivery.Service.{attempt_and_record, deliver, is_replayable, replay}
use hookyard.Delivery.Operations.{
  Operation, creates, claims, delivers, replays, Environment, perform, run,
}

-- What an invariant has to survive: the rows that are inserted, the attempts, the update that ends
-- an attempt, and a claim as a whole.
pub record IsPreserved (env : Environment) (P : Tables → Type 0) : Type 0 where
  pub on_original :
      (fresh : ℕ → ℕ) (c : Clock) (e : EventAccepted) (ep : EndpointSnapshotWithId) (t : Tables)
      → exists (has_id (fresh ep.endpoint_id)) t.deliveries ≡ false
      → P t
      → P (append_row (original fresh c e ep) t)
  pub on_replay :
      (id : ℕ) (c : Clock) (d : Delivery) (t : Tables)
      → exists (has_id id) t.deliveries ≡ false
      → P t
      → P (append_row (replay_row id c d) t)
  pub on_attempt :
      (a : Attempt) (t : Tables) → P t → P (record t { attempts = t.attempts ++ a ∷ [] })
  pub on_settle :
      (c : Clock) (id : ℕ) (d : Delivery) (res : AttemptResult) (next : Option ℕ) (t : Tables)
      → P t
      → P (record t {
        deliveries =
            update (leased_row id) (settled c (next_status d res.status) res next) t.deliveries;
      })
  pub on_claim :
      (locked : ℕ → Bool) (c : Clock) (worker : Bytes) (limit lease : ℕ)
      → Keeps P (claim_batch env.multiplex locked c worker limit lease)

module _ (P : Tables → Type 0) where
  or_not_found-Keeps : (o : Option Delivery) → Keeps P (or_not_found o)
  or_not_found-Keeps none s h = h
  or_not_found-Keeps (some d) s h = h

  pub get-Keeps : (tenant_id id : ℕ) → Keeps P (get tenant_id id)
  unfolding get
  get-Keeps tenant_id id = Keeps-bind P (query _ _) _ (Keeps-query P _ _) or_not_found-Keeps

  chosen-Keeps :
      (b : Bool) (e : Error) (m : M Tables ℕ) → Keeps P m → Keeps P (if b then m else throw e)
  chosen-Keeps true e m h s k = h s k
  chosen-Keeps false e m h s k = k

-- The two shapes of an INSERT, read backwards from the tables that it leaves.
skipped_or_inserted :
    (x y : Bool) (t new t' : Tables)
    → (if x then some t else if y then none else some new) ≡ some t'
    → (t ≡ t') ⊎ ((y ≡ false) × (new ≡ t'))
skipped_or_inserted x y t new t' e = ground arith

inserted :
    (x y : Bool) (new t' : Tables)
    → (if x then none else if y then none else some new) ≡ some t'
    → (x ≡ false) × (new ≡ t')
inserted x y new t' e = ground arith

module _ (env : Environment) (P : Tables → Type 0) (laws : IsPreserved env P) where
  insert_or_skip-keeps :
      (index : UniqueIndex) (fresh : ℕ → ℕ) (c : Clock) (e : EventAccepted)
      (ep : EndpointSnapshotWithId) (t t' : Tables)
      → insert_or_skip index (original fresh c e ep) t ≡ some t'
      → P t
      → P t'
  unfolding insert_or_skip
  insert_or_skip-keeps total fresh c e ep t t' q h = elim (skipped_or_inserted _ _ t _ t' q) [
    | inl same ↦ subst P same h
    | inr (free, new) ↦ subst P new (laws.on_original fresh c e ep t free h)
  ]
  insert_or_skip-keeps originals fresh c e ep t t' q h = cc
  insert_or_skip-keeps absent fresh c e ep t t' q h = cc

  create_deliveries-Keeps :
      (index : UniqueIndex) (fresh : ℕ → ℕ) (c : Clock) (e : EventAccepted)
      (eps : List EndpointSnapshotWithId)
      → Keeps P (create_deliveries index fresh c e eps)
  unfolding create_deliveries
  create_deliveries-Keeps index fresh c e eps =
      Keeps-transaction P _ _ _ (
        Keeps-for_each P eps _
          (λ ep. Keeps-attempt P _ _ (insert_or_skip-keeps index fresh c e ep)))

  create_replay-Keeps :
      (index : UniqueIndex) (id : ℕ) (c : Clock) (d : Delivery)
      → Keeps P (create_replay index id c d)
  unfolding create_replay insert_row
  create_replay-Keeps index id c d =
      Keeps-then P (attempt _ _) _ (Keeps-attempt P _ _ step) (Keeps-pure P id)
    where
      step : (t t' : Tables) → insert_row index (replay_row id c d) t ≡ some t' → P t → P t'
      step t t' q h =
          let (free, new) = inserted _ _ _ t' q in subst P new (laws.on_replay id c d t free h)

  insert_attempt-keeps : (a : Attempt) (t t' : Tables) → insert_attempt a t ≡ some t' → P t → P t'
  unfolding insert_attempt
  insert_attempt-keeps a t t' q h = subst P (admitted _ _ _ t' q) (laws.on_attempt a t h)

  record_attempt_and_transition-Keeps :
      (c : Clock) (d : Delivery) (res : AttemptResult) (next : Option ℕ)
      → Keeps P (record_attempt_and_transition c d res next)
  unfolding record_attempt_and_transition settle
  record_attempt_and_transition-Keeps c d res next = Keeps-transaction P _ _ _ (
      Keeps-then P (attempt _ _) _ (Keeps-attempt P _ _ (insert_attempt-keeps _)) (
        Keeps-attempt P _ _
          (λ t t' q h. subst P (accepted _ _ t' q) (laws.on_settle c d.id d res next t h))))

  deliver-Keeps :
      (decrypt : Bytes → Option Bytes) (network : Network) (latency random : ℕ) (c : Clock)
      (d : Delivery)
      → Keeps P (deliver decrypt network latency random c d)
  unfolding deliver
  deliver-Keeps decrypt network latency random c d =
      go (decrypt d.endpoint_snapshot.secret_encrypted)
    where
      go : (o : Option Bytes) → Keeps P (attempt_and_record network latency random c d o)
      go none s h = h
      go (some secret) s h = record_attempt_and_transition-Keeps c _ _ _ s h

  replay-Keeps :
      (index : UniqueIndex) (fresh : ℕ) (c : Clock) (tenant_id id : ℕ)
      → Keeps P (replay index fresh c tenant_id id)
  unfolding replay
  replay-Keeps index fresh c tenant_id id =
      Keeps-bind P (get tenant_id id) _ (get-Keeps P tenant_id id)
        (λ d. chosen-Keeps P (is_replayable d.status) _ _ (create_replay-Keeps index fresh c d))

  pub perform-Keeps : (op : Operation) → Keeps P (perform env op)
  unfolding perform
  perform-Keeps (creates fresh c e eps) = create_deliveries-Keeps env.index fresh c e eps
  perform-Keeps (claims locked c worker limit lease) =
      Keeps-bind P _ _ (laws.on_claim locked c worker limit lease) (λ ds. Keeps-pure P tt)
  perform-Keeps (delivers latency random c d) =
      deliver-Keeps env.decrypt env.network latency random c d
  perform-Keeps (replays fresh c tenant_id id) =
      Keeps-bind P _ _ (replay-Keeps env.index fresh c tenant_id id) (λ n. Keeps-pure P tt)

  pub run-Keeps :
      (history : List (Operation × List Bool)) (t : Tables) → P t → P (run env history t)
  unfolding run
  run-Keeps [] t h = h
  run-Keeps ((op, faults) ∷ rest) t h =
      run-Keeps rest _ (perform-Keeps op (record { db = t; faults = faults }) h)
