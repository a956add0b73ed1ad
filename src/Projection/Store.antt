-- ===== src/Projection/Store.antt =====
-- delivery-service/internal/endpoint/projection.go and model.go, with the two projection tables of
-- delivery-service/migrations/001_init.sql.
use hookyard.Base.{
  ℕ, Bytes, bytes, bytes_eq, Bool, ◌&&◌, Option, none, some, List, [], ◌∷◌, ◌++◌, ◌==◌, ltb,
  if◌then◌else◌, not, select, find, exists, update,
}
use hookyard.Base.Session.{other, M, exec, query, transaction, for_each, ◌>>◌}
use hookyard.Delivery.Model.{RetryPolicy, EndpointSnapshotWithId}

pub record EndpointChanged : Type 0 where
  pub message_id : Bytes
  pub tenant_id : ℕ
  pub endpoint_id : ℕ
  pub name : Bytes
  pub url : Bytes
  pub secret_encrypted : Bytes
  pub status : Bytes
  pub connect_timeout_ms : ℕ
  pub request_timeout_ms : ℕ
  pub retry_policy : RetryPolicy
  pub version : ℕ
  pub updated_at : ℕ
  pub event_types : List Bytes

-- A row of `endpoint_projection`.
pub record EndpointRow : Type 0 where
  pub endpoint_id : ℕ
  pub tenant_id : ℕ
  pub name : Bytes
  pub url : Bytes
  pub secret_encrypted : Bytes
  pub status : Bytes
  pub connect_timeout_ms : ℕ
  pub request_timeout_ms : ℕ
  pub retry_policy : RetryPolicy
  pub version : ℕ
  pub updated_at : ℕ

-- A row of `endpoint_subscription_projection`.
pub record SubscriptionRow : Type 0 where
  pub endpoint_id : ℕ
  pub tenant_id : ℕ
  pub event_type : Bytes

pub record Projection : Type 0 where
  pub endpoints : List EndpointRow
  pub subscriptions : List SubscriptionRow

abbrev pub endpoint_row : EndpointChanged → EndpointRow
endpoint_row e = record {
  endpoint_id = e.endpoint_id;
  tenant_id = e.tenant_id;
  name = e.name;
  url = e.url;
  secret_encrypted = e.secret_encrypted;
  status = e.status;
  connect_timeout_ms = e.connect_timeout_ms;
  request_timeout_ms = e.request_timeout_ms;
  retry_policy = e.retry_policy;
  version = e.version;
  updated_at = e.updated_at;
}

abbrev pub is_endpoint : ℕ → EndpointRow → Bool
is_endpoint id row = row.endpoint_id == id

-- INSERT … ON CONFLICT (endpoint_id) DO UPDATE … WHERE endpoint_projection.version < EXCLUDED.version
unfoldable pub upsert_endpoint : EndpointChanged → List EndpointRow → List EndpointRow
upsert_endpoint e rows =
    if exists (is_endpoint e.endpoint_id) rows
    then update (λ row. is_endpoint e.endpoint_id row && ltb row.version e.version)
        (λ _. endpoint_row e) rows
    else rows ++ endpoint_row e ∷ []

abbrev pub is_subscription : ℕ → Bytes → SubscriptionRow → Bool
is_subscription id event_type row = (row.endpoint_id == id) && bytes_eq row.event_type event_type

-- INSERT … ON CONFLICT DO NOTHING; the primary key is (endpoint_id, event_type).
unfoldable pub subscribe : EndpointChanged → Bytes → List SubscriptionRow → List SubscriptionRow
subscribe e event_type rows =
    if exists (is_subscription e.endpoint_id event_type) rows
    then rows
    else rows
      ++ record { endpoint_id = e.endpoint_id; tenant_id = e.tenant_id; event_type = event_type }
        ∷ []

unfoldable pub unsubscribe : ℕ → List SubscriptionRow → List SubscriptionRow
unsubscribe id rows = select (λ row. not (row.endpoint_id == id)) rows

unfoldable pub upsert : EndpointChanged → M Projection (Unit {0})
unfolding upsert_endpoint subscribe unsubscribe
upsert e = transaction (other "begin") (other "commit") (do
  exec (other "upsert endpoint") (λ p. record p { endpoints = upsert_endpoint e p.endpoints })
  exec (other "delete subscriptions")
      (λ p. record p { subscriptions = unsubscribe e.endpoint_id p.subscriptions })
  for_each e.event_types (λ event_type.
      exec (other "insert subscription")
        (λ p. record p { subscriptions = subscribe e event_type p.subscriptions })))

abbrev pub active : Bytes
active = bytes "ACTIVE"

abbrev pub snapshot_of : SubscriptionRow → EndpointRow → EndpointSnapshotWithId
snapshot_of sub row = record {
  endpoint_id = sub.endpoint_id;
  event_type = sub.event_type;
  snapshot = record {
    event_type = [];
    url = row.url;
    secret_encrypted = row.secret_encrypted;
    connect_timeout_ms = row.connect_timeout_ms;
    request_timeout_ms = row.request_timeout_ms;
    retry_policy = row.retry_policy;
  };
}

abbrev joined : SubscriptionRow → Option EndpointRow → List EndpointSnapshotWithId
joined sub none = []
joined sub (some row) = snapshot_of sub row ∷ []

-- The join on the primary key endpoint_id, the active endpoints of it.
unfoldable pub join_rows :
    ℕ → Bytes → List EndpointRow → List SubscriptionRow → List EndpointSnapshotWithId
join_rows tenant_id event_type endpoints [] = []
join_rows tenant_id event_type endpoints (sub ∷ rest) =
    (if (sub.tenant_id == tenant_id) && bytes_eq sub.event_type event_type
      then joined sub
          (find (λ row. is_endpoint sub.endpoint_id row && bytes_eq row.status active) endpoints)
      else [])
    ++ join_rows tenant_id event_type endpoints rest

unfoldable pub get_for_event : ℕ → Bytes → M Projection (List EndpointSnapshotWithId)
get_for_event tenant_id event_type =
    query (other "query endpoints")
      (λ p. join_rows tenant_id event_type p.endpoints p.subscriptions)
