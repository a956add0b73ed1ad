-- ===== src/Endpoint/Store.antt =====
-- endpoint-service/internal/endpoint/model.go and internal/retrypolicy, with the tables of
-- endpoint-service/migrations/001_init.sql and the table `tenants`, which the repository reads.
use hookyard.Base.{
  ℕ, Bytes, bytes_eq, Bool, true, false, not, ◌&&◌, Option, none, some, List, ◌==◌, leb,
  if◌then◌else◌, is_none, map, select, exists, order_by,
}
use hookyard.Base.Session.{Error, conflict, other}

pub data Status : Type 0 where
  active deleted : Status

pub record Endpoint : Type 0 where
  pub id : ℕ
  pub tenant_id : ℕ
  pub name : Bytes
  pub url : Bytes
  pub secret_encrypted : Bytes
  pub status : Status
  pub connect_timeout_ms : ℕ
  pub request_timeout_ms : ℕ
  pub retry_policy_id : ℕ
  pub version : ℕ
  pub created_at : ℕ
  pub updated_at : ℕ
  pub deleted_at : Option ℕ

-- What the service calls an Endpoint: a row of `endpoints` with the event types of its subscriptions.
pub record View : Type 0 where
  pub row : Endpoint
  pub event_types : List Bytes

pub record Subscription : Type 0 where
  pub endpoint_id : ℕ
  pub event_type : Bytes

pub record Policy : Type 0 where
  pub id : ℕ
  pub tenant_id : ℕ
  pub name : Bytes
  pub max_attempts : ℕ
  pub backoff_type : Bytes
  pub initial_delay : ℕ
  pub max_delay : ℕ
  pub jitter_percent : ℕ

pub record Tenant : Type 0 where
  pub tenant_id : ℕ
  pub status : Bytes

pub record Tables : Type 0 where
  pub tenants : List Tenant
  pub endpoints : List Endpoint
  pub subscriptions : List Subscription
  pub policies : List Policy

pub record CreateRequest : Type 0 where
  pub name : Bytes
  pub url : Bytes
  pub secret : Bytes
  pub connect_timeout_ms : ℕ
  pub request_timeout_ms : ℕ
  pub retry_policy_id : Option ℕ
  pub event_types : List Bytes

pub record PatchRequest : Type 0 where
  pub name : Option Bytes
  pub url : Option Bytes
  pub secret : Option Bytes
  pub connect_timeout_ms : Option ℕ
  pub request_timeout_ms : Option ℕ
  pub retry_policy_id : Option ℕ
  pub event_types : Option (List Bytes)

-- What PostgreSQL does with text: lower(), the order of the collation, and VARCHAR(255).
pub record Collation : Type 0 where
  pub lower : Bytes → Bytes
  pub before : Bytes → Bytes → Bool
  pub fits : Bytes → Bool

-- The moment of a call: time.Now() of the process and NOW() of its transaction, and what the
-- transactions of others commit between its first read and its first write. The write locks the row,
-- so whatever else others do to the endpoint comes before the read or after the commit.
pub record Moment : Type 0 where
  pub now : ℕ
  pub db_now : ℕ
  pub others : Tables → Tables

abbrev pub is_deleted : Status → Bool
is_deleted deleted = true
is_deleted active = false

abbrev pub has_id : ℕ → Endpoint → Bool
has_id id e = e.id == id

abbrev pub owned_by : ℕ → ℕ → Endpoint → Bool
owned_by tenant_id id e = (e.tenant_id == tenant_id) && (e.id == id)

abbrev pub of_endpoint : ℕ → Subscription → Bool
of_endpoint id s = s.endpoint_id == id

abbrev pub has_policy : ℕ → ℕ → Policy → Bool
has_policy tenant_id id p = (p.tenant_id == tenant_id) && (p.id == id)

abbrev pub timeout_fits : ℕ → Bool
timeout_fits ms = leb 100 ms && leb ms 120_000

-- idx_endpoints_active_name, which another row would share with `e`.
abbrev pub same_name : Collation → Endpoint → Endpoint → Bool
same_name co e x =
    is_none e.deleted_at
    && (is_none x.deleted_at
        && (not (x.id == e.id)
            && ((x.tenant_id == e.tenant_id) && bytes_eq (co.lower x.name) (co.lower e.name))))

-- The constraints of a row of `endpoints`, other than its primary key, after mapDBError.
unfoldable pub row_violation : Collation → Endpoint → Tables → Option Error
row_violation co e t =
    if exists (same_name co e) t.endpoints
    then some conflict
    else if timeout_fits e.connect_timeout_ms
        && (timeout_fits e.request_timeout_ms
            && (co.fits e.name && exists (has_policy e.tenant_id e.retry_policy_id) t.policies))
    then none
    else some (other "database error")

unfoldable pub insert_violation : Collation → Endpoint → Tables → Option Error
unfolding row_violation
insert_violation co e t =
    if exists (has_id e.id) t.endpoints then some conflict else row_violation co e t

-- A row of `endpoint_subscriptions`: its primary key, its foreign key and the width of its text.
unfoldable pub subscription_violation : Collation → ℕ → Bytes → Tables → Option Error
subscription_violation co id event_type t =
    if exists (λ s. of_endpoint id s && bytes_eq s.event_type event_type) t.subscriptions
    then some (other "insert subscription")
    else if exists (has_id id) t.endpoints && co.fits event_type
    then none
    else some (other "insert subscription")

-- The event types of an endpoint, ORDER BY event_type.
unfoldable pub event_types_of : Collation → ℕ → List Subscription → List Bytes
event_types_of co id ss = order_by co.before (map (λ s. s.event_type) (select (of_endpoint id) ss))
