-- ===== src/Auth/History.antt =====
-- Histories of the operations of auth-service/internal/repository/repository.go, and what a revoked
-- key can still do in them.
use hookyard.Base.{
  ℕ, ◌≡◌, refl, ap, ◌∙◌, ◌≢◌, Bytes, Bool, true, some, List, All-find, find, find-passes, arith,
}
use hookyard.Base.Session.{Session, ok}
use hookyard.Base.Ensures.{Ensures-use}
use hookyard.Auth.Store.{key_revoked, ApiKey, Tables, is_key_active}
use hookyard.Auth.Repository.{Verified, verifies, verify}
use hookyard.Auth.Operations.{Functions, Operation, run}
use hookyard.Auth.Preservation.{run-Keeps}
use hookyard.Auth.Verification.{Accepts, verify-Ensures}
use hookyard.Auth.Revocation.{IsRevoked, IsRevoked-IsPreserved}

-- A key that is found by Verify is active.
not_verified :
    (id now : ℕ) (prefix sum : Bytes) (t : Tables) (k : ApiKey)
    → IsRevoked id t
    → find (verifies now prefix sum t.tenants) t.keys ≡ some k
    → k.id ≢ id
unfolding verifies
not_verified id now prefix sum t k h found e =
    let live : is_key_active k.status ≡ true = ground (arith, find-passes _ t.keys k found) in
    let gone : k.status ≡ key_revoked =
      All-find _ (verifies now prefix sum t.tenants) t.keys found h.all e in
    absurd (ground (arith, ap is_key_active gone))

-- Once an API key is revoked, no token is verified as that key again, whatever tenants and keys are
-- created, updated, deleted, revoked and verified in between, and whatever calls fail.
pub revoked_for_good :
    (fs : Functions) (history : List (Operation × List Bool)) (t : Tables) (id now : ℕ)
    (token : Bytes) (faults : List Bool) (v : Verified) (s' : Session Tables)
    → IsRevoked id t
    → verify fs.hash now token (record { db = run fs history t; faults = faults })
      ≡ (ok (some v), s')
    → v.key_id ≢ id
revoked_for_good fs history t id now token faults v s' gone run_ok e =
    let (k, other, same, _) =
      Ensures-use (IsRevoked id) (Accepts (λ k. k.id ≢ id)) (verify fs.hash now token)
        (record { db = run fs history t; faults = faults }) s' (some v)
        (verify-Ensures (IsRevoked id) (λ k. k.id ≢ id) fs.hash now token
          (λ prefix. not_verified id now prefix (fs.hash token)))
        (run-Keeps (IsRevoked id) (IsRevoked-IsPreserved id) fs history t gone) run_ok v refl in
    other (same ∙ e)
