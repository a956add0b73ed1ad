-- ===== src/Examples/Deliveries.antt =====
-- Runs of the delivery service on small tables.
use hookyard.Base.{
  ℕ, ◌≡◌, refl, ◌≢◌, Bytes, bytes, Bool, true, false, some, List, [], ◌∷◌, map, All, exists, find,
  select, order_by, update, arith,
}
use hookyard.Base.Session.{
  Error, Result, err, other, Session, ok, transaction, query, exec, attempt, for_each,
}
use hookyard.Webhook.Client.{responded}
use hookyard.Delivery.Model.{
  failed, RetryPolicy, EventAccepted, EndpointSnapshot, EndpointSnapshotWithId, Delivery, Tables,
  total, originals, Clock,
}
use hookyard.Delivery.Repository.{
  has_id, original, insert_or_skip, insert_row, create_replay, get, create_deliveries,
}
use hookyard.Delivery.Claim.{claimed, due, claim_query, claim_rows, claim_batch}
use hookyard.Delivery.Service.{replay}
use hookyard.Delivery.Operations.{Operation, creates, claims, replays, Environment, run}
use hookyard.Delivery.Claims.{IsSound}
use hookyard.Delivery.Consistency.{run-IsSound}
use hookyard.Delivery.Settled.{final_absorbs}
use hookyard.Delivery.Leases.{LeasedUntil, claim_batch-leases, claims_disjoint}
use hookyard.Delivery.BusyConnection.{claim_batch-busy}
use hookyard.Delivery.Creation.{create_deliveries-refused}
use hookyard.Delivery.Replays.{IsReplay, replay-IsReplay, accept_or_replay}

abbrev policy : RetryPolicy
policy = record {
  max_attempts = 3;
  backoff_type = bytes "exponential";
  initial_delay_ms = 1000;
  max_delay_ms = 60000;
  jitter_percent = 0;
}

abbrev snapshot : EndpointSnapshot
snapshot = record {
  event_type = bytes "order.paid";
  url = bytes "https://a.example/hook";
  secret_encrypted = 1 ∷ 2 ∷ [];
  connect_timeout_ms = 1000;
  request_timeout_ms = 5000;
  retry_policy = policy;
}

abbrev endpoint : EndpointSnapshotWithId
endpoint = record { endpoint_id = 7; event_type = bytes "order.paid"; snapshot = snapshot }

abbrev accepted_event : EventAccepted
accepted_event = record {
  message_id = bytes "1";
  event_id = 5;
  tenant_id = 3;
  event_type = bytes "order.paid";
  payload = bytes "{}";
}

abbrev clock : Clock
clock = record { now = 100; db_now = 100 }

abbrev later : Clock
later = record { now = 200; db_now = 200 }

abbrev fresh : ℕ → ℕ
fresh endpoint_id = 40

abbrev waiting : Delivery
waiting = original fresh clock accepted_event endpoint

abbrev settled_row : Delivery
settled_row = record waiting {
  status = failed;
  attempt_count = 1;
  last_attempt_at = some 100;
  completed_at = some 150;
}

abbrev nothing : Tables
nothing = record { deliveries = []; attempts = [] }

abbrev one_waiting : Tables
one_waiting = record { deliveries = waiting ∷ []; attempts = [] }

abbrev one_settled : Tables
one_settled = record { deliveries = settled_row ∷ []; attempts = [] }

abbrev at : Tables → Session Tables
at t = record { db = t; faults = [] }

abbrev unlocked : ℕ → Bool
unlocked id = false

abbrev worker : Bytes
worker = bytes "host-1"

abbrev world : Environment
world = record {
  index = total;
  multiplex = true;
  decrypt = λ b. some b;
  network = record {
    hmac_hex = λ key message. message;
    show_uuid = λ n. n ∷ [];
    exchange = λ req. responded 503 [] [];
  };
}

abbrev history : List (Operation × List Bool)
history =
    (creates fresh clock accepted_event (endpoint ∷ []), [])
    ∷ (claims unlocked clock worker 10 30, false ∷ true ∷ [])
    ∷ (claims unlocked later worker 10 30, [])
    ∷ (replays 41 later 3 40, [])
    ∷ []

abbrev no_rows : List Delivery
no_rows = []

abbrev copy_id : ℕ
copy_id = 41

history-IsSound : IsSound (run world history nothing)
history-IsSound = run-IsSound world history nothing (record { distinct = tt; consistent = tt })

settled_stays : find (has_id 40) (run world history one_settled).deliveries ≡ some settled_row
unfolding find
settled_stays = final_absorbs world history one_settled 40 settled_row (tt, tt) refl refl

abbrev claimed_rows : List Delivery
claimed_rows = claimed clock waiting ∷ []

claim_leases :
    (claimed_rows ≡ map (claimed clock) (claim_query unlocked 10 100 (waiting ∷ [])))
    × All
        (LeasedUntil 30_000_000_100 (claim_query unlocked 10 100 (waiting ∷ [])))
        (claim_batch true unlocked clock worker 10 5 (at one_waiting)).1.db.deliveries
unfolding claim_batch transaction query claim_rows order_by select due exec
claim_leases =
    claim_batch-leases true unlocked clock worker 10 5 (at one_waiting)
      (claim_batch true unlocked clock worker 10 5 (at one_waiting)).1 claimed_rows refl

second_claim_apart : All (λ d'. All (λ d. d.id ≢ d'.id) claimed_rows) no_rows
unfolding claim_batch transaction query claim_rows order_by select due exec update
second_claim_apart =
    claims_disjoint true unlocked unlocked clock later worker (bytes "host-2") 10 10 5 5
      (at one_waiting) (claim_batch true unlocked clock worker 10 5 (at one_waiting)).1
      (claim_batch true unlocked later (bytes "host-2") 10 5
        (claim_batch true unlocked clock worker 10 5 (at one_waiting)).1).1
      claimed_rows no_rows refl refl (omega arith)

idle_claim :
    (claim_query unlocked 10 100 (settled_row ∷ []) ≡ [])
    × (no_rows ≡ no_rows)
    × ((claim_batch false unlocked clock worker 10 5 (at one_settled)).1.db ≡ one_settled)
unfolding claim_batch transaction query claim_rows order_by select due exec
idle_claim =
    claim_batch-busy unlocked clock worker 10 5 (at one_settled)
      (claim_batch false unlocked clock worker 10 5 (at one_settled)).1 no_rows refl

event_refused :
    (x : Error) × (◌≡◌ {A = Result (Unit {0})} (err (other "create delivery")) (err x))
    × ((at nothing).db ≡ (at nothing).db)
unfolding create_deliveries transaction for_each attempt insert_or_skip exists
event_refused =
    create_deliveries-refused originals fresh clock accepted_event endpoint [] (at nothing)
      (at nothing) (err (other "create delivery")) (λ e. cc) refl

replayed :
    (copy_id ≡ copy_id)
    × IsReplay 3 40 41 later one_settled (replay originals 41 later 3 40 (at one_settled)).1.db
unfolding replay get query find create_replay attempt insert_row exists
replayed =
    replay-IsReplay originals 41 later 3 40 41 (at one_settled)
      (replay originals 41 later 3 40 (at one_settled)).1 refl

no_replay : replay total 41 later 3 40 (at one_settled) ≢ (ok 41, at one_settled)
unfolding create_deliveries transaction for_each attempt insert_or_skip exists
no_replay =
    accept_or_replay total fresh clock accepted_event endpoint [] (at nothing) (at one_waiting) 41
      later 3 40 41 (at one_settled) (at one_settled) refl
