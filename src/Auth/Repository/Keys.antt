-- ===== src/Auth/Repository/Keys.antt =====
-- The methods of auth-service/internal/repository/repository.go that write keys: DeleteTenant,
-- CreateKey and RevokeKey.
use hookyard.Base.{
  ℕ, Bytes, bytes, bytes_eq, Bool, ◌&&◌, Option, none, some, List, [], ◌∷◌, ◌++◌, ◌==◌,
  if◌then◌else◌, coalesce, exists, update,
}
use hookyard.Base.Session.{
  Error, not_found, other, ok, M, ◌>>=◌, ◌>>◌, pure, call, exec, query, statement, scoped,
}
use hookyard.Base.Trim.{trim_space}
use hookyard.Auth.Store.{
  key_active, key_revoked, Tenant, ApiKey, AuditEntry, Tables, is_active, is_key_active, has_tenant,
  has_key,
}
use hookyard.Auth.Repository.Tenants.{require, fits, retire, or_deleted}

abbrev pub revoked : ℕ → ApiKey → ApiKey
revoked now k = record k { status = key_revoked; revoked_at = some (coalesce k.revoked_at now) }

abbrev pub key_of : ℕ → ApiKey → Bool
key_of tenant_id k = (k.tenant_id == tenant_id) && is_key_active k.status

abbrev pub audit : AuditEntry → Tables → Tables
audit entry t = record t { audit_log = t.audit_log ++ entry ∷ [] }

-- DeleteTenant
unfoldable pub delete_tenant : ℕ → ℕ → M Tables Tenant
delete_tenant now id = scoped (other "begin delete tenant") (do
  found ← retire now id
  t ← or_deleted id found
  exec (other "revoke tenant keys")
      (λ t. record t { keys = update (key_of id) (revoked now) t.keys })
  exec (other "audit tenant deletion") (
      audit (record {
        tenant_id = id;
        key_id = none;
        action = bytes "tenant.deleted";
        actor = bytes "system";
      }))
  call (other "commit tenant deletion")
  pure t)

abbrev pub new_key :
    (Bytes → Bytes) → ℕ → ℕ → ℕ → Bytes → Bytes → Bytes → List Bytes → Option ℕ → Bytes → ApiKey
new_key hash id now tenant_id name secret prefix scopes expires actor = record {
  id = id;
  tenant_id = tenant_id;
  name = name;
  prefix = prefix;
  secret_hash = hash secret;
  scopes = scopes;
  status = key_active;
  created_at = now;
  last_used_at = none;
  expires_at = expires;
  revoked_at = none;
  created_by = actor;
}

-- The primary key, the unique prefix and the foreign key.
unfoldable pub key_violation : ApiKey → Tables → Option Error
key_violation k t =
    if exists (has_key k.id) t.keys
    then some (other "create API key")
    else if exists (λ x. bytes_eq x.prefix k.prefix) t.keys
    then some (other "create API key")
    else if exists (has_tenant k.tenant_id) t.tenants
    then none
    else some (other "create API key")

-- An error that is dropped.
abbrev pub ignored : M Tables (Unit {0}) → M Tables (Unit {0})
ignored m s = (ok tt, (m s).1)

-- The statements of CreateKey.
unfoldable pub store_key : ApiKey → Bytes → M Tables ApiKey
store_key k actor = do
  is_there ←
      query (other "check tenant")
        (λ t. exists (λ x. has_tenant k.tenant_id x && is_active x.status) t.tenants)
  require is_there not_found
  statement (other "create API key") (key_violation k) (λ t. record t { keys = t.keys ++ k ∷ [] })
  ignored (
      exec (other "audit") (
        audit (record {
          tenant_id = k.tenant_id;
          key_id = some k.id;
          action = bytes "api_key.created";
          actor = actor;
        })))
  pure k

-- CreateKey
unfoldable pub create_key :
    (Bytes → Bytes)
    → ℕ
    → ℕ
    → ℕ
    → Bytes
    → Bytes
    → Bytes
    → List Bytes
    → Option ℕ
    → Bytes
    → M Tables ApiKey
create_key hash id now tenant_id raw secret prefix scopes expires actor = do
  require (fits 120 (trim_space raw)) (other "key name must be 1-120 characters")
  store_key (new_key hash id now tenant_id (trim_space raw) secret prefix scopes expires actor)
      actor

abbrev pub active_key_of : ℕ → ℕ → ApiKey → Bool
active_key_of tenant_id id k = has_key id k && key_of tenant_id k

-- The UPDATE of RevokeKey, and whether it changed any row.
unfoldable pub revoke : ℕ → ℕ → ℕ → M Tables Bool
revoke now tenant_id id = do
  call (other "revoke key")
  λ s. (
    ok (exists (active_key_of tenant_id id) s.db.keys),
    record s {
      db = record (s.db) { keys = update (active_key_of tenant_id id) (revoked now) s.db.keys };
    },
  )

-- RevokeKey
unfoldable pub revoke_key : ℕ → ℕ → ℕ → Bytes → M Tables (Unit {0})
revoke_key now tenant_id id actor = do
  any ← revoke now tenant_id id
  require any not_found
  ignored (
      exec (other "audit") (
        audit (record {
          tenant_id = tenant_id;
          key_id = some id;
          action = bytes "api_key.revoked";
          actor = actor;
        })))
