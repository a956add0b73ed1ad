-- ===== src/Examples/Endpoints.antt =====
-- Endpoints created and patched, and their outbox relayed.
use hookyard.Base.{
  ℕ, arith, ◌≡◌, refl, Bytes, bytes, Bool, true, false, none, some, List, [], ◌∷◌, find, exists,
  update, select, order_by,
}
use hookyard.Base.Session.{Session, query, statement, overlapped}
use hookyard.Endpoint.Store.{
  active, Endpoint, View, Policy, Tables, PatchRequest, Collation, Moment, row_violation, has_id,
  event_types_of,
}
use hookyard.Endpoint.Repository.{scan_tx, get_policy, patch_row, patch}
use hookyard.Endpoint.Growth.{HasGrown}
use hookyard.Endpoint.History.{Change, patches, deletes, run, versions_grow}
use hookyard.Endpoint.Patches.{IsPatched, patch-IsPatched}
use hookyard.Outbox.Relay.{Row, Queue, flush}
use hookyard.Outbox.Publication.{AllSent, flush-AllSent}

abbrev collation : Collation
collation = record { lower = λ b. b; before = λ a b. false; fits = λ b. true }

abbrev clock : Moment
clock = record { now = 50; db_now = 51; others = λ t. t }

abbrev endpoint : Endpoint
endpoint = record {
  id = 7;
  tenant_id = 3;
  name = bytes "orders";
  url = bytes "https://a.example/hook";
  secret_encrypted = 1 ∷ [];
  status = active;
  connect_timeout_ms = 1000;
  request_timeout_ms = 5000;
  retry_policy_id = 9;
  version = 4;
  created_at = 10;
  updated_at = 20;
  deleted_at = none;
}

abbrev policy : Policy
policy = record {
  id = 9;
  tenant_id = 3;
  name = bytes "default";
  max_attempts = 5;
  backoff_type = bytes "exponential";
  initial_delay = 10000;
  max_delay = 600000;
  jitter_percent = 20;
}

abbrev tables : Tables
tables = record {
  tenants = record { tenant_id = 3; status = bytes "ACTIVE" } ∷ [];
  endpoints = endpoint ∷ [];
  subscriptions = record { endpoint_id = 7; event_type = bytes "order.paid" } ∷ [];
  policies = policy ∷ [];
}

abbrev slower : PatchRequest
slower = record {
  name = none;
  url = none;
  secret = none;
  connect_timeout_ms = none;
  request_timeout_ms = some 9000;
  retry_policy_id = none;
  event_types = none;
}

abbrev session : Session Tables
session = record { db = tables; faults = [] }

abbrev slower_view : View
slower_view = record {
  row = record endpoint { request_timeout_ms = 9000; version = 5; updated_at = 51 };
  event_types = bytes "order.paid" ∷ [];
}

-- A patch that another has overlapped, whose name is lost.
abbrev overlapped_clock : Moment
overlapped_clock = record {
  now = 50;
  db_now = 51;
  others = λ t. record t {
    endpoints = record endpoint { name = bytes "invoices"; version = 5; updated_at = 49 } ∷ [];
  };
}

own_still :
    (x : Endpoint)
    → find (has_id 7) (overlapped_clock.others tables).endpoints ≡ some x
    → x.tenant_id ≡ 3
unfolding find
own_still x e = ground arith

endpoint-IsPatched :
    IsPatched collation overlapped_clock 3 7 slower [] tables slower_view policy
      (patch collation overlapped_clock 3 7 slower [] none session).1.db
unfolding patch overlapped scan_tx query find patch_row get_policy statement row_violation exists
    update event_types_of order_by select
endpoint-IsPatched =
    patch-IsPatched collation overlapped_clock 3 7 slower [] none session
      (patch collation overlapped_clock 3 7 slower [] none session).1 slower_view policy own_still
      refl

abbrev history : List (Change × List Bool)
history =
    (patches clock 3 7 slower [] none, [])
    ∷ (deletes clock 3 7, false ∷ true ∷ [])
    ∷ (deletes clock 3 7, [])
    ∷ (patches clock 3 7 slower [] none, [])
    ∷ []

endpoint_grown : HasGrown 7 endpoint (run collation history tables)
unfolding find
endpoint_grown =
    versions_grow collation history tables 7 endpoint
      ((λ t. refl), ((λ t. refl), ((λ t. refl), ((λ t. refl), tt)))) refl

abbrev message : Row
message = record {
  id = 1;
  topic = bytes "endpoints";
  key = bytes "7";
  payload = bytes "{}";
  attempts = 0;
  available_at = 10;
  locked_by = none;
  locked_until = none;
  published_at = none;
  created_at = 10;
}

abbrev worker : Bytes
worker = bytes "relay-1"

abbrev queue : Session Queue
queue = record { db = record { rows = message ∷ []; sent = [] }; faults = [] }

abbrev nobody : ℕ → Bool
nobody id = false

message_flushed : AllSent (flush nobody nobody 20 worker 10 30 queue).db
message_flushed = flush-AllSent nobody nobody 20 worker 10 30 queue ((λ marked. cc), tt)
