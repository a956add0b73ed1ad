-- ===== src/Auth/Verification.antt =====
-- What Verify of auth-service/internal/repository/repository.go knows of the key that it accepts.
use hookyard.Base.{ℕ, ◌≡◌, refl, ap, Bytes, Option, none, some, find}
use hookyard.Base.Session.{query}
use hookyard.Base.Ensures.{Ensures, Ensures-bind, Ensures-query}
use hookyard.Auth.Store.{ApiKey, Tables}
use hookyard.Auth.Repository.{Verified, prefix_of, verifies, respond, verify_prefix, verify}

-- An answer that names a key with `R`.
abbrev pub Accepts : (ApiKey → Type 0) → Option Verified → Tables → Type 0
Accepts R o t =
    (v : Verified)
    → o ≡ some v
    → (k : ApiKey) × R k × (k.id ≡ v.key_id) × (k.tenant_id ≡ v.tenant_id)

-- Where every key that the query can find has `R`, so has the key that is accepted.
pub verify-Ensures :
    (P : Tables → Type 0) (R : ApiKey → Type 0) (hash : Bytes → Bytes) (now : ℕ) (token : Bytes)
    → ((prefix : Bytes) (t : Tables) (k : ApiKey)
        → P t
        → find (verifies now prefix (hash token) t.tenants) t.keys ≡ some k
        → R k)
    → Ensures P (verify hash now token) (Accepts R)
unfolding verify
verify-Ensures P R hash now token found = from_prefix (prefix_of token)
  where
    Finds : Option ApiKey → Tables → Type 0
    Finds o t = (k : ApiKey) → o ≡ some k → R k

    answer : (o : Option ApiKey) → Ensures (Finds o) (respond now o) (Accepts R)
    answer none s h = λ v e. cc
    answer (some k) s h = λ v e. (k, h k refl, ap key_of e, ap tenant_of e)
      where
        key_of : Option Verified → ℕ
        key_of none = k.id
        key_of (some v) = v.key_id

        tenant_of : Option Verified → ℕ
        tenant_of none = k.tenant_id
        tenant_of (some v) = v.tenant_id

    from_prefix : (o : Option Bytes) → Ensures P (verify_prefix now (hash token) o) (Accepts R)
    from_prefix none = λ s h v e. cc
    from_prefix (some prefix) =
        Ensures-bind P Finds (Accepts R) (query _ _) _
          (Ensures-query P Finds _ _ (λ t h k e. found prefix t k h e)) answer
