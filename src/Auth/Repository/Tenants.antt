-- ===== src/Auth/Repository/Tenants.antt =====
-- The methods of auth-service/internal/repository/repository.go on tenants, but for DeleteTenant.
use hookyard.Base.{
  ℕ, Bytes, bytes, bytes_eq, Bool, not, ◌&&◌, ◌||◌, Option, none, some, [], ◌∷◌, ◌++◌, ltb,
  if◌then◌else◌, is_empty, is_none, coalesce, length, find, exists, update,
}
use hookyard.Base.Session.{
  Error, not_found, conflict, other, Result, ok, err, M, ◌>>=◌, ◌>>◌, pure, throw, call, query,
  statement, lift,
}
use hookyard.Base.Trim.{trim_space}
use hookyard.Auth.Store.{
  TenantStatus, active, suspended, deleted, Tenant, Tables, is_deleted, has_tenant, same_name,
}

abbrev pub require : Bool → Error → M Tables (Unit {0})
require b e = if b then pure tt else throw e

abbrev pub fits : ℕ → Bytes → Bool
fits limit name = not (is_empty name || ltb limit (length name))

abbrev pub new_tenant : ℕ → ℕ → Bytes → Tenant
new_tenant id now name = record {
  id = id;
  name = name;
  status = active;
  created_at = now;
  updated_at = now;
  deleted_at = none;
}

unfoldable pub tenant_violation : (Bytes → Bytes) → Tenant → Tables → Option Error
tenant_violation lower t tables =
    if exists (same_name lower t) tables.tenants
    then some conflict
    else if exists (has_tenant t.id) tables.tenants
    then some conflict
    else none

-- CreateTenant, of the name without its white space.
unfoldable pub create_tenant : (Bytes → Bytes) → ℕ → ℕ → Bytes → M Tables Tenant
create_tenant lower id now raw = do
  require (fits 255 (trim_space raw)) (other "name must be 1-255 characters")
  statement (other "create tenant") (tenant_violation lower (new_tenant id now (trim_space raw)))
      (λ t. record t { tenants = t.tenants ++ new_tenant id now (trim_space raw) ∷ [] })
  pure (new_tenant id now (trim_space raw))

abbrev pub some_or : {A : Type 0} → Error → Option A → M Tables A
some_or e none = throw e
some_or e (some a) = pure a

unfoldable pub get_tenant : ℕ → M Tables Tenant
get_tenant id = do
  found ← query (other "get tenant") (λ t. find (has_tenant id) t.tenants)
  some_or not_found found

abbrev pub is_live : ℕ → Tenant → Bool
is_live id t = has_tenant id t && not (is_deleted t.status)

-- What the UPDATE of DeleteTenant sets.
abbrev pub retired : ℕ → Tenant → Tenant
retired now t = record t {
  status = deleted;
  deleted_at = some (coalesce t.deleted_at now);
  updated_at = now;
}

abbrev pub returned : ℕ → Option Tenant → Option Tenant
returned now none = none
returned now (some t) = some (retired now t)

-- UPDATE … RETURNING: the row that it changed, if there was one.
unfoldable pub retire : ℕ → ℕ → M Tables (Option Tenant)
retire now id = do
  call (other "delete tenant")
  λ s. (
    ok (returned now (find (is_live id) s.db.tenants)),
    record s { db = record (s.db) { tenants = update (is_live id) (retired now) s.db.tenants } },
  )

-- A tenant that is deleted already is read instead.
abbrev pub or_deleted : ℕ → Option Tenant → M Tables Tenant
or_deleted id (some t) = pure t
or_deleted id none = do
  t ← get_tenant id
  require (is_deleted t.status) (other "delete tenant")
  pure t

-- A field of UpdateTenant: its check, if it is given.
abbrev pub checked_name : Option Bytes → Result (Option Bytes)
checked_name none = ok none
checked_name (some raw) =
    if fits 255 (trim_space raw)
    then ok (some (trim_space raw))
    else err (other "name must be 1-255 characters")

abbrev pub checked_status : Option Bytes → Result (Option TenantStatus)
checked_status none = ok none
checked_status (some b) =
    if bytes_eq b (bytes "ACTIVE")
    then ok (some active)
    else if bytes_eq b (bytes "SUSPENDED")
    then ok (some suspended)
    else err (other "status must be ACTIVE or SUSPENDED")

abbrev pub changed : ℕ → Option Bytes → Option TenantStatus → Tenant → Tenant
changed now name status t = record t {
  name = coalesce name t.name;
  status = coalesce status t.status;
  updated_at = now;
}

-- UPDATE … RETURNING of the live row `found`, which may break the unique index over the names.
abbrev pub rewritten : (Bytes → Bytes) → (Tenant → Tenant) → ℕ → Option Tenant → M Tables Tenant
rewritten lower f id none s = (err not_found, s)
rewritten lower f id (some t) s =
    if exists (same_name lower (f t)) s.db.tenants then (err conflict, s) else (
      ok (f t),
      record s { db = record (s.db) { tenants = update (is_live id) f s.db.tenants } },
    )

unfoldable pub write_live : (Bytes → Bytes) → (Tenant → Tenant) → ℕ → M Tables Tenant
write_live lower f id = do
  call (other "update tenant")
  λ s. rewritten lower f id (find (is_live id) s.db.tenants) s

-- UpdateTenant
unfoldable pub update_tenant :
    (Bytes → Bytes) → ℕ → ℕ → Option Bytes → Option Bytes → M Tables Tenant
update_tenant lower now id name status = do
  require (not (is_none name && is_none status)) (other "at least one field must be provided")
  new_name ← lift (checked_name name)
  new_status ← lift (checked_status status)
  write_live lower (changed now new_name new_status) id
