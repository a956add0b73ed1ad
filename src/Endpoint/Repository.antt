-- ===== src/Endpoint/Repository.antt =====
-- endpoint-service/internal/endpoint/repository.go: creating, reading, patching and deleting an
-- endpoint. The calls of enqueueChanged are commented out there.
use hookyard.Base.{
  ℕ, suc, Bytes, bytes, bytes_eq, not, Option, none, some, List, [], ◌∷◌, ◌++◌, ◌==◌, if◌then◌else◌,
  is_none, coalesce, select, find, update,
}
use hookyard.Base.Session.{
  Error, conflict, not_found, other, M, ◌>>=◌, ◌>>◌, pure, throw, call, exec, query, statement,
  scoped, overlapped, for_each,
}
use hookyard.Endpoint.Store.{
  active, deleted, Endpoint, View, Policy, Tenant, Tables, CreateRequest, PatchRequest, Collation,
  Moment, is_deleted, has_id, owned_by, of_endpoint, has_policy, row_violation, insert_violation,
  subscription_violation, event_types_of,
}

abbrev pub some_or : Error → {A : Type 0} → Option A → M Tables A
some_or e none = throw e
some_or e (some a) = pure a

-- scanTx with loadSubscriptionsTx, and `missing` for a row that is not there.
unfoldable pub scan_tx : Collation → Error → ℕ → M Tables View
scan_tx co missing id = do
  found ← query (other "scan endpoint") (λ t. find (has_id id) t.endpoints)
  row ← some_or missing found
  types ← query (other "load subscriptions") (λ t. event_types_of co id t.subscriptions)
  pure (record { row = row; event_types = types })

-- getPolicy and getPolicyTx.
unfoldable pub get_policy : ℕ → ℕ → M Tables Policy
get_policy tenant_id id = do
  found ← query (other "get retry policy") (λ t. find (has_policy tenant_id id) t.policies)
  some_or (other "get retry policy") found

abbrev pub require_active : Option Tenant → M Tables (Unit {0})
require_active none = throw (Error.invalid "tenant not found")
require_active (some t) =
    if bytes_eq t.status (bytes "ACTIVE")
    then pure tt
    else throw (Error.invalid "tenant is not active")

unfoldable pub subscribe : Collation → ℕ → Bytes → M Tables (Unit {0})
subscribe co id event_type =
    statement (other "insert subscription") (subscription_violation co id event_type) (λ t.
      record t {
        subscriptions =
            t.subscriptions ++ record { endpoint_id = id; event_type = event_type } ∷ [];
      })

abbrev pub unsubscribe : ℕ → Tables → Tables
unsubscribe id t = record t { subscriptions = select (λ s. not (of_endpoint id s)) t.subscriptions }

abbrev pub new_endpoint : ℕ → Moment → ℕ → CreateRequest → Bytes → Policy → Endpoint
new_endpoint id c tenant_id req secret policy = record {
  id = id;
  tenant_id = tenant_id;
  name = req.name;
  url = req.url;
  secret_encrypted = secret;
  status = active;
  connect_timeout_ms = req.connect_timeout_ms;
  request_timeout_ms = req.request_timeout_ms;
  retry_policy_id = policy.id;
  version = 1;
  created_at = c.db_now;
  updated_at = c.db_now;
  deleted_at = none;
}

-- CreateEndpoint; `id` is what uuid.New() returns.
unfoldable pub create_endpoint :
    Collation → ℕ → Moment → ℕ → CreateRequest → Bytes → Policy → M Tables View
create_endpoint co id c tenant_id req secret policy = scoped (other "begin create endpoint") (do
  tenant ← query (other "check tenant") (λ t. find (λ x. x.tenant_id == tenant_id) t.tenants)
  require_active tenant
  statement (other "database error")
      (insert_violation co (new_endpoint id c tenant_id req secret policy))
      (λ t. record t {
        endpoints = t.endpoints ++ new_endpoint id c tenant_id req secret policy ∷ [];
      })
  for_each req.event_types (subscribe co id)
  e ← scan_tx co (other "no rows") id
  call (other "commit create endpoint")
  pure e)

-- GetEndpoint.
unfoldable pub get_endpoint : Collation → ℕ → ℕ → M Tables (View × Policy)
get_endpoint co tenant_id id = do
  found ← query (other "get endpoint") (λ t. find (owned_by tenant_id id) t.endpoints)
  row ← some_or not_found found
  types ← query (other "load subscriptions") (λ t. event_types_of co id t.subscriptions)
  p ← get_policy tenant_id row.retry_policy_id
  pure (record { row = row; event_types = types }, p)

-- The row that Patch writes: what the request leaves out stays.
unfoldable pub patched : Moment → PatchRequest → Bytes → Endpoint → Endpoint
patched c req secret e = record e {
  name = coalesce req.name e.name;
  url = coalesce req.url e.url;
  secret_encrypted = if is_none req.secret then e.secret_encrypted else secret;
  connect_timeout_ms = coalesce req.connect_timeout_ms e.connect_timeout_ms;
  request_timeout_ms = coalesce req.request_timeout_ms e.request_timeout_ms;
  retry_policy_id = coalesce req.retry_policy_id e.retry_policy_id;
  version = suc e.version;
  updated_at = c.db_now;
}

-- The columns that the UPDATE of Patch sets.
abbrev pub write_patch : Endpoint → Endpoint → Endpoint
write_patch new x = record x {
  name = new.name;
  url = new.url;
  secret_encrypted = new.secret_encrypted;
  connect_timeout_ms = new.connect_timeout_ms;
  request_timeout_ms = new.request_timeout_ms;
  retry_policy_id = new.retry_policy_id;
  version = new.version;
  updated_at = new.updated_at;
}

-- The checks on the row that Patch and Delete have read.
abbrev pub require_owner : ℕ → Endpoint → M Tables (Unit {0})
require_owner tenant_id e = if e.tenant_id == tenant_id then pure tt else throw not_found

abbrev pub require_live : Endpoint → M Tables (Unit {0})
require_live e = if is_deleted e.status then throw conflict else pure tt

-- The policy of the service if it is the one that the row will have.
abbrev pub policy_for : ℕ → ℕ → Option Policy → M Tables Policy
policy_for tenant_id id none = get_policy tenant_id id
policy_for tenant_id id (some p) = if p.id == id then pure p else get_policy tenant_id id

abbrev pub resubscribe : Collation → ℕ → Option (List Bytes) → M Tables (Unit {0})
resubscribe co id none = pure tt
resubscribe co id (some types) = do
  exec (other "delete subscriptions") (unsubscribe id)
  for_each types (subscribe co id)

-- Patch, from the row as it was read.
unfoldable pub patch_row :
    Collation
    → Moment
    → ℕ
    → ℕ
    → PatchRequest
    → Bytes
    → Option Policy
    → Endpoint
    → M Tables (View × Policy)
unfolding patched
patch_row co c tenant_id id req secret policy e = do
  require_owner tenant_id e
  require_live e
  p ← policy_for tenant_id (patched c req secret e).retry_policy_id policy
  statement (other "database error") (row_violation co (patched c req secret e)) (λ t. record t {
    endpoints = update (owned_by tenant_id id) (write_patch (patched c req secret e)) t.endpoints;
  })
  resubscribe co id req.event_types
  v ← scan_tx co (other "no rows") id
  call (other "commit patch endpoint")
  pure (v, p)

-- Neither Patch nor Delete locks the row that it reads.
unfoldable pub patch :
    Collation → Moment → ℕ → ℕ → PatchRequest → Bytes → Option Policy → M Tables (View × Policy)
patch co c tenant_id id req secret policy = do
  call (other "begin patch endpoint")
  v ← scan_tx co not_found id
  overlapped c.others (patch_row co c tenant_id id req secret policy v.row)

-- The endpoint as Delete changes it.
abbrev pub retired : Moment → Endpoint → Endpoint
retired c e = record e {
  status = deleted;
  deleted_at = some c.now;
  version = suc e.version;
  updated_at = c.now;
}

-- The columns that the UPDATE of Delete sets.
abbrev pub write_retired : Endpoint → Endpoint → Endpoint
write_retired new x = record x {
  status = new.status;
  deleted_at = new.deleted_at;
  version = new.version;
  updated_at = new.updated_at;
}

-- Delete, from the endpoint as it was read: one that is deleted already is returned as it is.
unfoldable pub delete_row : Moment → ℕ → ℕ → View → M Tables (View × Policy)
delete_row c tenant_id id v = do
  require_owner tenant_id v.row
  p ← get_policy tenant_id v.row.retry_policy_id
  (if is_deleted v.row.status then pure (v, p) else (do
    exec (other "delete endpoint") (λ t. record t {
      endpoints = update (owned_by tenant_id id) (write_retired (retired c v.row)) t.endpoints;
    })
    exec (other "delete subscriptions") (unsubscribe id)
    call (other "commit delete endpoint")
    pure (record { row = retired c v.row; event_types = [] }, p)))

unfoldable pub delete : Collation → Moment → ℕ → ℕ → M Tables (View × Policy)
delete co c tenant_id id = do
  call (other "begin delete endpoint")
  v ← scan_tx co not_found id
  overlapped c.others (delete_row c tenant_id id v)
