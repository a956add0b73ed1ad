-- ===== src/Auth/Repository/Verify.antt =====
-- Verify of auth-service/internal/repository/repository.go.
use hookyard.Base.{
  ℕ, Bytes, bytes, bytes_eq, Bool, true, ◌&&◌, Option, none, some, List, [], ◌∷◌, ◌==◌, ltb,
  if◌then◌else◌, find, exists, update,
}
use hookyard.Base.Session.{other, M, ◌>>=◌, ◌>>◌, pure, exec, query}
use hookyard.Base.Trim.{strip_prefix}
use hookyard.Auth.Store.{Tenant, ApiKey, Tables, is_active, is_key_active, has_tenant, has_key}
use hookyard.Auth.Repository.Keys.{ignored}

pub record Verified : Type 0 where
  pub tenant_id : ℕ
  pub key_id : ℕ
  pub scopes : List Bytes

-- What stands in front of the first '.', if there is one.
unfoldable pub before_dot : Bytes → Option Bytes
before_dot [] = none
before_dot (b ∷ bs) =
    let rest = before_dot bs in
    if b == 46 then some [] else elim rest [ none ↦ none | some front ↦ some (b ∷ front) ]

abbrev pub stripped : Option Bytes → Option Bytes
stripped none = none
stripped (some front) = strip_prefix (bytes "hk_live_") front

-- The key_prefix of a token of the form hk_live_<prefix>.<random>.
unfoldable pub prefix_of : Bytes → Option Bytes
prefix_of token = stripped (before_dot token)

-- expires_at IS NULL OR expires_at > now()
abbrev pub unexpired : ℕ → Option ℕ → Bool
unexpired now none = true
unexpired now (some t) = ltb now t

-- The WHERE of Verify, for a key of one of `tenants`.
unfoldable pub verifies : ℕ → Bytes → Bytes → List Tenant → ApiKey → Bool
verifies now prefix sum tenants k =
    bytes_eq k.prefix prefix
    && (bytes_eq k.secret_hash sum
        && (is_key_active k.status
            && (exists (λ t. has_tenant k.tenant_id t && is_active t.status) tenants
                && unexpired now k.expires_at)))

abbrev pub touched : ℕ → ApiKey → ApiKey
touched now k = record k { last_used_at = some now }

-- A response with Valid false is none.
abbrev pub respond : ℕ → Option ApiKey → M Tables (Option Verified)
respond now none = pure none
respond now (some k) = do
  ignored
      (exec (other "touch") (λ t. record t { keys = update (has_key k.id) (touched now) t.keys }))
  pure (some (record { tenant_id = k.tenant_id; key_id = k.id; scopes = k.scopes }))

abbrev pub verify_prefix : ℕ → Bytes → Option Bytes → M Tables (Option Verified)
verify_prefix now sum none = pure none
verify_prefix now sum (some prefix) = do
  found ← query (other "verify key") (λ t. find (verifies now prefix sum t.tenants) t.keys)
  respond now found

-- Verify
unfoldable pub verify : (Bytes → Bytes) → ℕ → Bytes → M Tables (Option Verified)
verify hash now token = verify_prefix now (hash token) (prefix_of token)
