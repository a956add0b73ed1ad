-- ===== src/Auth/Listing.antt =====
-- ListTenants and ListKeys of auth-service/internal/repository/repository.go. The call of the driver that
-- scans a row may fail for each row.
use hookyard.Base.{ℕ, Bytes, Bool, Option, List, map, ltb, ◌==◌, select, order_by}
use hookyard.Base.Session.{other, M, ◌>>=◌, ◌>>◌, pure, call, query, for_each}
use hookyard.Auth.Store.{Tenant, ApiKey, Tables, KeyStatus}

-- ORDER BY created_at DESC
abbrev pub newer_tenant : Tenant → Tenant → Bool
newer_tenant a b = ltb b.created_at a.created_at

abbrev pub newer_key : ApiKey → ApiKey → Bool
newer_key a b = ltb b.created_at a.created_at

unfoldable pub list_tenants : M Tables (List Tenant)
list_tenants = do
  rows ← query (other "list tenants") (λ t. order_by newer_tenant t.tenants)
  for_each rows (λ t. call (other "scan tenant"))
  call (other "list tenants")
  pure rows

-- What the columns of the query fill in of an APIKey.
pub record KeyView : Type 0 where
  pub id : ℕ
  pub tenant_id : ℕ
  pub name : Bytes
  pub prefix : Bytes
  pub scopes : List Bytes
  pub status : KeyStatus
  pub created_at : ℕ
  pub last_used_at : Option ℕ
  pub expires_at : Option ℕ

abbrev pub key_view : ApiKey → KeyView
key_view k = record {
  id = k.id;
  tenant_id = k.tenant_id;
  name = k.name;
  prefix = k.prefix;
  scopes = k.scopes;
  status = k.status;
  created_at = k.created_at;
  last_used_at = k.last_used_at;
  expires_at = k.expires_at;
}

unfoldable pub list_keys : ℕ → M Tables (List KeyView)
list_keys tenant_id = do
  rows ←
      query (other "list keys")
        (λ t. order_by newer_key (select (λ k. k.tenant_id == tenant_id) t.keys))
  for_each rows (λ k. call (other "scan key"))
  call (other "list keys")
  pure (map key_view rows)
