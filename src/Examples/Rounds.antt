-- ===== src/Examples/Rounds.antt =====
-- Two rounds of a delivery whose endpoint is not available.
use hookyard.Base.{
  ℕ, ◌≤◌, ◌≡◌, ◌⊎◌, refl, bytes, bytes_eq, Bool, List, true, false, some, none, [], ◌∷◌, exists,
  find, select, order_by, update,
}
use hookyard.Base.Session.{Session, transaction, query, exec, attempt}
use hookyard.Retry.Backoff.{next_delay}
use hookyard.Webhook.Client.{responded, classify, send}
use hookyard.Delivery.Model.{pending, Delivery, Tables, total, Clock, is_final}
use hookyard.Delivery.Repository.{
  has_id, next_status, insert_attempt, settle, record_attempt_and_transition,
}
use hookyard.Delivery.Claim.{due, claim_query, claimed, claim_rows, claim_batch}
use hookyard.Delivery.Service.{next_attempt, deliver}
use hookyard.Delivery.Operations.{Environment}
use hookyard.Delivery.Rounds.{Round, starts, goes_on, Rounds-terminate}

abbrev waiting : Delivery
waiting = record {
  id = 40;
  tenant_id = 3;
  event_id = 5;
  endpoint_id = 7;
  status = pending;
  attempt_count = 0;
  next_attempt_at = 100;
  last_attempt_at = none;
  last_status_code = none;
  last_error_code = none;
  last_error_message = none;
  lease_owner = none;
  lease_expires_at = none;
  replay_of_delivery_id = none;
  endpoint_snapshot = record {
    event_type = bytes "order.paid";
    url = bytes "https://a.example/hook";
    secret_encrypted = 1 ∷ [];
    connect_timeout_ms = 1000;
    request_timeout_ms = 5000;
    retry_policy = record {
      max_attempts = 2;
      backoff_type = bytes "exponential";
      initial_delay_ms = 1000;
      max_delay_ms = 60000;
      jitter_percent = 0;
    };
  };
  event_payload = bytes "{}";
  created_at = 100;
  updated_at = 100;
  completed_at = none;
}

abbrev tables : Tables
tables = record { deliveries = waiting ∷ []; attempts = [] }

abbrev world : Environment
world = record {
  index = total;
  multiplex = true;
  decrypt = λ b. some b;
  network = record {
    hmac_hex = λ key message. [];
    show_uuid = λ n. n ∷ [];
    exchange = λ req. responded 503 [] [];
  };
}

abbrev free : ℕ → Bool
free id = false

-- The two rounds are far enough apart for the delay between them.
abbrev first : Clock
first = record { now = 200; db_now = 200 }

abbrev second : Clock
second = record { now = 10_000_000_000_000; db_now = 10_000_000_000_000 }

abbrev claimed_by : Clock → Tables → Session Tables
claimed_by c t = (claim_batch true free c (bytes "w") 10 30 (record { db = t; faults = [] })).1

abbrev after_round : Clock → Delivery → Tables → Tables
after_round c d t = (deliver world.decrypt world.network 5 0 c (claimed c d) (claimed_by c t)).1.db

abbrev once : Tables
once = after_round first waiting tables

abbrev head_or : Delivery → List Delivery → Delivery
head_or d [] = d
head_or d (x ∷ xs) = x

abbrev retried : Delivery
retried = head_or waiting once.deliveries

abbrev twice : Tables
twice = after_round second retried once

abbrev dead : Delivery
dead = head_or waiting twice.deliveries

first-Round : Round world 40 tables once
unfolding claim_batch transaction query claim_rows order_by select due exec update claim_query
    deliver send record_attempt_and_transition attempt insert_attempt settle next_status
    next_attempt exists find classify
first-Round = record {
  distinct = (tt, tt);
  locked = free;
  claim_clock = first;
  worker = bytes "w";
  limit = 10;
  lease = 30;
  claim_faults = [];
  batch = claimed first waiting ∷ [];
  leased = claimed_by first tables;
  claims = refl;
  handed = claimed first waiting;
  given = refl;
  session = claimed_by first tables;
  kept = refl;
  latency = 5;
  random = 0;
  clock = first;
  ended =
      (deliver world.decrypt world.network 5 0 first (claimed first waiting)
        (claimed_by first tables)).1;
  delivers = refl;
  left = refl;
}

second-Round : Round world 40 once twice
unfolding claim_batch transaction query claim_rows order_by select due exec update claim_query
    deliver send record_attempt_and_transition attempt insert_attempt settle next_status
    next_attempt exists find classify next_delay bytes_eq
second-Round = record {
  distinct = (tt, tt);
  locked = free;
  claim_clock = second;
  worker = bytes "w";
  limit = 10;
  lease = 30;
  claim_faults = [];
  batch = claimed second retried ∷ [];
  leased = claimed_by second once;
  claims = refl;
  handed = claimed second retried;
  given = refl;
  session = claimed_by second once;
  kept = refl;
  latency = 5;
  random = 0;
  clock = second;
  ended =
      (deliver world.decrypt world.network 5 0 second (claimed second retried)
        (claimed_by second once)).1;
  delivers = refl;
  left = refl;
}

abbrev one : ℕ
one = 1

two_rounds :
    ((one ≡ 0) ⊎ (2 ≤ 2))
    × (2 ≤ 2
        → (x : Delivery) × (find (has_id 40) twice.deliveries ≡ some x)
          × (is_final x.status ≡ true))
unfolding find
two_rounds = Rounds-terminate world 40 1 tables twice waiting refl (
    goes_on 1 tables once once twice
      (goes_on 0 tables tables tables once (starts tables) refl first-Round) refl second-Round)
