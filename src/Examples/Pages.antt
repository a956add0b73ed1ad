-- ===== src/Examples/Pages.antt =====
-- Lists of deliveries and endpoints that are read page by page, and requests that are turned away.
use hookyard.Base.{
  ℕ, ◌≡◌, refl, ◌≢◌, ◌<◌, Bytes, bytes, bytes_eq, true, false, Option, if◌then◌else◌, none, some,
  [], ◌∷◌, map, suc, length, exists, select, All, All-map, arith,
}
use hookyard.Base.Int.{pos}
use hookyard.Base.Trim.{trim_space, trim_left, trim_right, to_upper}
use hookyard.Base.Atoi.{digits, digits-decimal, decimal-bytes}
use hookyard.Base.{decimal}
use hookyard.Base.Cursor.{Texts, IsFaithful}
use hookyard.Base.Paging.{follow}
use hookyard.Base.Session.{calm}
use hookyard.Http.{Request, fixed, failed}
use hookyard.Delivery.Model.{dlq, Delivery, EndpointSnapshot, Tables, originals}
use hookyard.Delivery.Listing.{ListFilter, status_filter, listed, list}
use hookyard.Delivery.Pages.{matching, pages_are_list}
use hookyard.Delivery.Http.{post_replay, get_list, serve}
use hookyard.Delivery.OwnRows.{own}
use hookyard.Delivery.Isolation.{tenants_apart}
use hookyard.Delivery.Requests.{EndsInDigits, replay_route_refused}
use hookyard.Endpoint.Store.{active, Endpoint, Collation}
use hookyard.Endpoint.Store.{Tables as EndpointTables}
use hookyard.Endpoint.Listing.{view_of}
use hookyard.Endpoint.Listing.{
  ListFilter as EndpointFilter, list as list_endpoints, status_filter as endpoint_status,
}
use hookyard.Endpoint.Pages.{endpoint_pages_are_list}
use hookyard.Endpoint.Pages.{matching as matching_endpoints}

-- Times and ids written in decimal.
abbrev texts : Texts
texts = record {
  format_time = decimal;
  parse_time = digits 0;
  uuid_text = decimal;
  parse_uuid = digits 0;
}

plain : (n : ℕ) → All (λ b. (b < 128) × (b ≢ 124)) (decimal n)
plain n =
    All-map (λ b. (47 < b) × (b < 58)) (λ b. (b < 128) × (b ≢ 124)) (decimal n)
      (λ b h. (omega arith, λ e. absurd (omega arith))) (decimal-bytes n)

texts-IsFaithful : IsFaithful texts
texts-IsFaithful = record {
  time_back = digits-decimal;
  uuid_back = digits-decimal;
  time_bytes = plain;
  uuid_bytes = plain;
}

abbrev snapshot : EndpointSnapshot
snapshot = record {
  event_type = bytes "order.paid";
  url = bytes "https://a.example/hook";
  secret_encrypted = [];
  connect_timeout_ms = 1000;
  request_timeout_ms = 5000;
  retry_policy = record {
    max_attempts = 3;
    backoff_type = bytes "exponential";
    initial_delay_ms = 1000;
    max_delay_ms = 60000;
    jitter_percent = 0;
  };
}

abbrev row : ℕ → ℕ → Delivery
row id time = record {
  id = id;
  tenant_id = 3;
  event_id = 5;
  endpoint_id = 7;
  status = dlq;
  attempt_count = 3;
  next_attempt_at = time;
  last_attempt_at = none;
  last_status_code = none;
  last_error_code = none;
  last_error_message = some (bytes "refused");
  lease_owner = none;
  lease_expires_at = none;
  replay_of_delivery_id = none;
  endpoint_snapshot = snapshot;
  event_payload = bytes "{}";
  created_at = time;
  updated_at = time;
  completed_at = some time;
}

abbrev tables : Tables
tables = record { deliveries = row 40 10 ∷ row 41 20 ∷ row 42 10 ∷ []; attempts = [] }

abbrev filter : ListFilter
filter = record {
  limit = pos 1;
  cursor = [];
  status = bytes " dlq";
  endpoint_id = none;
  event_id = some 5;
}

all_pages :
    follow
      (λ c. (list texts 3 (record filter { cursor = c }) true (calm tables)).0)
      (suc (length (matching 3 (some dlq) filter tables.deliveries)))
      []
    ≡ some (map listed (matching 3 (some dlq) filter tables.deliveries))
unfolding status_filter trim_space trim_left trim_right to_upper bytes_eq
all_pages =
    pages_are_list texts 3 filter true (some dlq) tables texts-IsFaithful refl (omega arith)
      (omega arith)

abbrev endpoint : ℕ → ℕ → Endpoint
endpoint id time = record {
  id = id;
  tenant_id = 3;
  name = bytes "orders";
  url = bytes "https://a.example/hook";
  secret_encrypted = 1 ∷ [];
  status = active;
  connect_timeout_ms = 1000;
  request_timeout_ms = 5000;
  retry_policy_id = 9;
  version = 4;
  created_at = time;
  updated_at = 20;
  deleted_at = none;
}

abbrev endpoint_tables : EndpointTables
endpoint_tables = record {
  tenants = [];
  endpoints = endpoint 7 10 ∷ endpoint 8 20 ∷ [];
  subscriptions = record { endpoint_id = 7; event_type = bytes "order.paid" } ∷ [];
  policies = [];
}

abbrev collation : Collation
collation = record { lower = λ b. b; before = λ a b. false; fits = λ b. true }

abbrev endpoint_filter : EndpointFilter
endpoint_filter = record { limit = pos 1; cursor = []; status = [] }

all_endpoint_pages :
    follow
      (λ c.
        (list_endpoints collation texts 3
          (record endpoint_filter { cursor = c })
          (calm endpoint_tables)).0)
      (suc (length (matching_endpoints 3 (some active) endpoint_tables.endpoints)))
      []
    ≡ some (
        map
          (view_of collation endpoint_tables.subscriptions)
          (matching_endpoints 3 (some active) endpoint_tables.endpoints))
unfolding endpoint_status trim_space trim_left trim_right to_upper
all_endpoint_pages =
    endpoint_pages_are_list collation texts 3 endpoint_filter (some active) endpoint_tables
      texts-IsFaithful refl (omega arith) (omega arith)

-- A parser of UUIDs that takes the text "3" only.
abbrev parse_three : Bytes → Option ℕ
parse_three text = if bytes_eq text (bytes "3") then some 3 else none

parse_three-EndsInDigits : EndsInDigits parse_three
unfolding bytes_eq
parse_three-EndsInDigits [] a b c n e = ground arith
parse_three-EndsInDigits (x ∷ []) a b c n e = ground arith
parse_three-EndsInDigits (x ∷ y ∷ front) a b c n e = ground arith

abbrev replay_request : Request
replay_request = record {
  header = λ name. if bytes_eq name (bytes "X-Tenant-ID") then bytes "3" else [];
  path = bytes "/v1/deliveries/40/replay";
  path_value = λ name. if bytes_eq name (bytes "id") then bytes "40" else [];
  parameter = λ name. [];
  body = [];
}

replay_refused :
    serve parse_three texts originals 50
      (record { now = 60; db_now = 60 })
      post_replay
      replay_request
      (calm tables)
    ≡ (failed 400 (fixed (bytes "invalid delivery ID")), calm tables)
unfolding bytes_eq
replay_refused =
    replay_route_refused parse_three texts originals 50 (record { now = 60; db_now = 60 })
      replay_request (bytes "40") 3 (calm tables) parse_three-EndsInDigits refl refl

-- The same rows with one of another tenant in front of them.
abbrev crowded : Tables
crowded = record tables { deliveries = record (row 900 9) { tenant_id = 4 } ∷ tables.deliveries }

answered_alike :
    (serve parse_three texts originals 50
      (record { now = 60; db_now = 60 })
      get_list
      replay_request
      (calm tables)).0
    ≡ (serve parse_three texts originals 50
        (record { now = 60; db_now = 60 })
        get_list
        replay_request
        (calm crowded)).0
unfolding own select exists bytes_eq
answered_alike =
    tenants_apart parse_three texts originals 50 (record { now = 60; db_now = 60 }) get_list
      replay_request 3 tables crowded [] (λ e. cc) refl refl
