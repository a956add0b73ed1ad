-- ===== src/Auth/Store.antt =====
-- auth-service/internal/model/model.go with the tables of auth-service/migrations/001_init.sql.
use hookyard.Base.{ℕ, Bytes, bytes_eq, Bool, true, false, not, ◌&&◌, Option, List, ◌==◌, is_none}

pub data TenantStatus : Type 0 where
  active suspended deleted : TenantStatus

pub data KeyStatus : Type 0 where
  key_active key_revoked : KeyStatus

pub record Tenant : Type 0 where
  pub id : ℕ
  pub name : Bytes
  pub status : TenantStatus
  pub created_at : ℕ
  pub updated_at : ℕ
  pub deleted_at : Option ℕ

pub record ApiKey : Type 0 where
  pub id : ℕ
  pub tenant_id : ℕ
  pub name : Bytes
  pub prefix : Bytes
  pub secret_hash : Bytes
  pub scopes : List Bytes
  pub status : KeyStatus
  pub created_at : ℕ
  pub last_used_at : Option ℕ
  pub expires_at : Option ℕ
  pub revoked_at : Option ℕ
  pub created_by : Bytes

-- A row of `auth_audit_log`.
pub record AuditEntry : Type 0 where
  pub tenant_id : ℕ
  pub key_id : Option ℕ
  pub action : Bytes
  pub actor : Bytes

pub record Tables : Type 0 where
  pub tenants : List Tenant
  pub keys : List ApiKey
  pub audit_log : List AuditEntry

abbrev pub is_active : TenantStatus → Bool
is_active active = true
is_active _ = false

abbrev pub is_deleted : TenantStatus → Bool
is_deleted deleted = true
is_deleted _ = false

abbrev pub is_key_active : KeyStatus → Bool
is_key_active key_active = true
is_key_active key_revoked = false

abbrev pub has_tenant : ℕ → Tenant → Bool
has_tenant id t = t.id == id

abbrev pub has_key : ℕ → ApiKey → Bool
has_key id k = k.id == id

-- tenants_name_active_uq: another tenant that is not deleted has the name.
abbrev pub same_name : (Bytes → Bytes) → Tenant → Tenant → Bool
same_name lower t x =
    is_none t.deleted_at
    && (is_none x.deleted_at && (not (x.id == t.id) && bytes_eq (lower x.name) (lower t.name)))
