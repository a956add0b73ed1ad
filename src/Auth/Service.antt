-- ===== src/Auth/Service.antt =====
-- auth-service/internal/service/service.go. `lower`, `hash`, the base64 text of the random bytes, the
-- text of the new UUID and whether the random source fails are parameters.
use hookyard.Base.{
  ℕ, Bytes, bytes, bytes_eq, Bool, true, false, not, ◌||◌, Option, none, List, [], ◌∷◌, ◌++◌,
  if◌then◌else◌, is_empty, exists,
}
use hookyard.Base.Session.{other, M, ◌>>=◌, ◌>>◌, pure}
use hookyard.Base.Trim.{trim_space}
use hookyard.Auth.Store.{Tenant, ApiKey, Tables}
use hookyard.Auth.Repository.{require, unexpired, create_tenant, create_key}

-- What a call draws: new identifiers, the clock, the prefix and the random part of a key.
pub record Draw : Type 0 where
  pub tenant_id : ℕ
  pub key_id : ℕ
  pub now : ℕ
  pub db_now : ℕ
  pub random_fails : Bool
  pub prefix : Bytes
  pub random_text : Bytes

pub record CreateKeyRequest : Type 0 where
  pub name : Bytes
  pub scopes : List Bytes
  pub expires_at : Option ℕ

pub record CreatedKey : Type 0 where
  pub key : ApiKey
  pub secret : Bytes

abbrev pub allowed : List Bytes
allowed =
    bytes "events:write"
    ∷ bytes "events:read"
    ∷ bytes "endpoints:manage"
    ∷ bytes "deliveries:read"
    ∷ bytes "deliveries:replay"
    ∷ []

-- The loop over the scopes, with those that were seen before.
unfoldable pub check_scopes : List Bytes → List Bytes → Bool
check_scopes seen [] = true
check_scopes seen (scope ∷ rest) =
    let later = check_scopes (scope ∷ seen) rest in
    if not (exists (bytes_eq scope) allowed) || exists (bytes_eq scope) seen then false else later

abbrev pub or_allowed : List Bytes → List Bytes
or_allowed [] = allowed
or_allowed (scope ∷ rest) = scope ∷ rest

-- 46 is the dot.
abbrev pub secret_of : Draw → Bytes
secret_of draw = bytes "hk_live_" ++ draw.prefix ++ 46 ∷ draw.random_text

-- newKey
unfoldable pub new_key : (Bytes → Bytes) → Draw → ℕ → CreateKeyRequest → Bytes → M Tables CreatedKey
new_key hash draw tenant_id req actor = do
  require (check_scopes [] (or_allowed req.scopes)) (other "invalid or duplicate scope")
  require (unexpired draw.now req.expires_at) (other "expires_at must be in the future")
  require (not draw.random_fails) (other "rand")
  k ←
      create_key hash draw.key_id draw.db_now tenant_id req.name (secret_of draw) draw.prefix
        (or_allowed req.scopes) req.expires_at actor
  pure (record { key = k; secret = secret_of draw })

abbrev pub key_name : Bytes → Bytes
key_name raw = if is_empty (trim_space raw) then bytes "initial" else trim_space raw

-- CreateTenant, with a first key
unfoldable pub create_tenant_and_key :
    (Bytes → Bytes)
    → (Bytes → Bytes)
    → Draw
    → Bytes
    → Bytes
    → Bytes
    → M Tables (Tenant × CreatedKey)
create_tenant_and_key lower hash draw name raw actor = do
  t ← create_tenant lower draw.tenant_id draw.db_now name
  key ←
      new_key hash draw t.id (record { name = key_name raw; scopes = []; expires_at = none }) actor
  pure (t, key)
