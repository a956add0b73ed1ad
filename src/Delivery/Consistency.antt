-- ===== src/Delivery/Consistency.antt =====
-- The fields of every row agree with its status, whatever the operations and their faults.
use hookyard.Base.{
  ℕ, ◌≡◌, refl, Bool, true, false, ◌||◌, Option, List, [], ◌∷◌, All-append, All-update, exists,
  update, arith,
}
use hookyard.Attempt.{ResultStatus, success, retryable, permanent, AttemptResult}
use hookyard.Delivery.Model.{Status, Delivery, Tables, Clock, is_waiting, is_in_progress, is_final}
use hookyard.Delivery.Repository.{
  has_id, leased_row, append_row, original, replay_row, settled, next_status,
}
use hookyard.Delivery.Operations.{Operation, Environment, run}
use hookyard.Delivery.Preservation.{IsPreserved, run-Keeps}
use hookyard.Delivery.Rows.{Distinct-append, Distinct-update}
use hookyard.Delivery.Claims.{is_pending, IsConsistent, IsSound, claim_batch-IsSound}

append_row-IsSound :
    (row : Delivery) (t : Tables)
    → exists (has_id row.id) t.deliveries ≡ false
    → IsConsistent row
    → IsSound t
    → IsSound (append_row row t)
append_row-IsSound row t new h s = record {
  distinct = Distinct-append t.deliveries row new s.distinct;
  consistent = All-append IsConsistent t.deliveries (row ∷ []) s.consistent (h, tt);
}

settled-IsConsistent :
    (c : Clock) (status : Status) (res : AttemptResult) (next : Option ℕ) (d : Delivery)
    → is_in_progress d.status ≡ true
    → is_waiting status || is_final status ≡ true
    → is_pending status ≡ false
    → IsConsistent d
    → IsConsistent (settled c status res next d)
settled-IsConsistent c status res next d p f n h = ground arith

next_status-settles :
    (d : Delivery) (r : ResultStatus)
    → ((is_waiting (next_status d r) || is_final (next_status d r)) ≡ true)
      × (is_pending (next_status d r) ≡ false)
unfolding next_status
next_status-settles d success = (refl, refl)
next_status-settles d retryable = (ground arith, ground arith)
next_status-settles d permanent = (refl, refl)

settle-IsSound :
    (c : Clock) (id : ℕ) (d : Delivery) (res : AttemptResult) (next : Option ℕ) (t : Tables)
    → IsSound t
    → let f = settled c (next_status d res.status) res next in
      IsSound (record t { deliveries = update (leased_row id) f t.deliveries })
settle-IsSound c id d res next t s =
    let f = settled c (next_status d res.status) res next in
    record {
      distinct = Distinct-update (leased_row id) f (λ _. refl) t.deliveries s.distinct;
      consistent =
          All-update IsConsistent (leased_row id) f t.deliveries
            (λ a hit.
              settled-IsConsistent c (next_status d res.status) res next a (ground arith)
                (next_status-settles d res.status).0 (next_status-settles d res.status).1)
            s.consistent;
    }

IsSound-IsPreserved : (env : Environment) → IsPreserved env IsSound
IsSound-IsPreserved env = record {
  on_original =
      λ fresh c e ep t free. append_row-IsSound (original fresh c e ep) t free (ground arith);
  on_replay = λ id c d t free. append_row-IsSound (replay_row id c d) t free (ground arith);
  on_attempt = λ a t s. record { distinct = s.distinct; consistent = s.consistent };
  on_settle = settle-IsSound;
  on_claim = claim_batch-IsSound env.multiplex;
}

-- From sound tables, every history of operations and driver faults ends in sound tables: distinct
-- ids, and in every row a lease exactly when it is in progress, a completion time exactly when it
-- is delivered, failed or in the dead letter queue, no attempt exactly when it is pending, and a
-- time of the last attempt exactly when there was one.
pub run-IsSound :
    (env : Environment) (history : List (Operation × List Bool)) (t : Tables)
    → IsSound t
    → IsSound (run env history t)
run-IsSound env = run-Keeps env IsSound (IsSound-IsPreserved env)
