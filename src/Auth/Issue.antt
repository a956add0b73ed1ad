-- ===== src/Auth/Issue.antt =====
-- That a key which CreateKey of auth-service/internal/service/service.go returns is one that Verify of
-- auth-service/internal/repository/repository.go accepts.
use hookyard.Base.{
  ℕ, ◌≡◌, refl, ap, ◌∙◌, ◌≢◌, Bytes, bytes, bytes_eq, bytes_eq_iff, Bool, true, false, not, ◌&&◌,
  none, some, List, [], ◌∷◌, ◌++◌, All, exists, find, find-none, find-append, find-hit, arith,
}
use hookyard.Base.Session.{Error, other, ok, Session, M, ◌>>◌, pure, query, call, exec, statement}
use hookyard.Base.Keeps.{Keeps-exec}
use hookyard.Base.Ensures.{
  Ensures, Ensures-bind, Ensures-then, Ensures-query, Ensures-statement, Ensures-pure, Ensures-use,
}
use hookyard.Base.Trim.{trim_space}
use hookyard.Auth.Store.{Tenant, ApiKey, AuditEntry, Tables, key_active, is_active, has_tenant}
use hookyard.Auth.Repository.{
  require, key_violation, audit, ignored, store_key, create_key, unexpired, verifies, respond,
  verify_prefix, verify,
}
use hookyard.Auth.Repository.{new_key as new_row}
use hookyard.Auth.Service.{
  Draw, CreateKeyRequest, CreatedKey, check_scopes, or_allowed, secret_of, new_key,
}
use hookyard.Auth.Secrets.{prefix_of-secret_of}

abbrev is_live_tenant : ℕ → Tenant → Bool
is_live_tenant id x = has_tenant id x && is_active x.status

-- `k` is the last key, the only one with its prefix, and its tenant is active.
record IsIssued (k : ApiKey) (t : Tables) : Type 0 where
  older : List ApiKey
  keys : t.keys ≡ older ++ k ∷ []
  fresh : exists (λ x. bytes_eq x.prefix k.prefix) older ≡ false
  live : exists (is_live_tenant k.tenant_id) t.tenants ≡ true

-- What passes `require`.
require-Ensures :
    (P : Tables → Type 0) (b : Bool) (e : Error) → Ensures P (require b e) (λ _ t. P t × (b ≡ true))
require-Ensures P true e s h = (h, refl)
require-Ensures P false e s h = tt

Ensures-past :
    {A : Type 0} (Q : A → Tables → Type 0) (b : Bool) (e : Error) (m : M Tables A)
    → Ensures (λ t. Unit {0}) m Q
    → Ensures (λ t. Unit {0}) (require b e >> m) Q
Ensures-past Q true e m em s h = em s tt
Ensures-past Q false e m em s h = tt

violation-fresh :
    (k : ApiKey) (t : Tables)
    → key_violation k t ≡ none
    → exists (λ x. bytes_eq x.prefix k.prefix) t.keys ≡ false
unfolding key_violation
violation-fresh k t h = ground arith

-- The key that is returned is `k`, and it has been issued.
abbrev Issued : ApiKey → ApiKey → Tables → Type 0
Issued k r t = (r ≡ k) × IsIssued k t

store_key-Issued :
    (k : ApiKey) (actor : Bytes) → Ensures (λ t. Unit {0}) (store_key k actor) (Issued k)
unfolding store_key
store_key-Issued k actor =
    Ensures-bind (λ t. Unit) (λ b t. live t ≡ b) (Issued k) (query _ _) _
      (Ensures-query (λ t. Unit) _ _ _ (λ t h. refl))
      (λ b.
        Ensures-then (λ t. live t ≡ b) (λ t. (live t ≡ b) × (b ≡ true)) (Issued k) (require b _) _
          (require-Ensures _ b _)
          (Ensures-then (λ t. (live t ≡ b) × (b ≡ true)) (IsIssued k) (Issued k) (statement _ _ _) _
            (Ensures-statement (λ t. (live t ≡ b) × (b ≡ true)) (IsIssued k) _ _ _
              (λ t fine h. record {
                older = t.keys;
                keys = refl;
                fresh = violation-fresh k t fine;
                live = h.0 ∙ h.1;
              }))
            (Ensures-then (IsIssued k) (IsIssued k) (Issued k)
              (ignored (exec (other "audit") (audit entry))) (pure k)
              (Keeps-exec (IsIssued k) _ _
                (λ t h. record { older = h.older; keys = h.keys; fresh = h.fresh; live = h.live }))
              (Ensures-pure (IsIssued k) (Issued k) k (λ t h. (refl, h))))))
  where
    live : Tables → Bool
    live t = exists (is_live_tenant k.tenant_id) t.tenants

    entry : AuditEntry
    entry = record {
      tenant_id = k.tenant_id;
      key_id = some k.id;
      action = bytes "api_key.created";
      actor = actor;
    }

none_verifies :
    (now : ℕ) (k : ApiKey) (tenants : List Tenant) (ks : List ApiKey)
    → exists (λ x. bytes_eq x.prefix k.prefix) ks ≡ false
    → exists (verifies now k.prefix k.secret_hash tenants) ks ≡ false
unfolding exists verifies
none_verifies now k tenants [] h = refl
none_verifies now k tenants (x ∷ ks) h = ground (arith, none_verifies now k tenants ks)

issued_verifies :
    (now : ℕ) (k : ApiKey) (t : Tables)
    → IsIssued k t
    → k.status ≡ key_active
    → unexpired now k.expires_at ≡ true
    → find (verifies now k.prefix k.secret_hash t.tenants) t.keys ≡ some k
unfolding verifies
issued_verifies now k t h on valid =
    ap (find p) h.keys
    ∙ find-append p h.older (k ∷ [])
        (find-none p h.older (none_verifies now k t.tenants h.older h.fresh))
    ∙ find-hit p k [] passes
  where
    p : ApiKey → Bool
    p = verifies now k.prefix k.secret_hash t.tenants

    passes : p k ≡ true
    passes = ground (
      arith,
      (bytes_eq_iff k.prefix k.prefix).1 refl,
      (bytes_eq_iff k.secret_hash k.secret_hash).1 refl,
      h.live,
      on,
      valid,
    )

module _ (hash : Bytes → Bytes) (draw : Draw) (tenant_id : ℕ) (req : CreateKeyRequest)
    (actor : Bytes) where
  -- The row that the request stores.
  abbrev row : ApiKey
  row =
      new_row hash draw.key_id draw.db_now tenant_id (trim_space req.name) (secret_of draw)
        draw.prefix (or_allowed req.scopes) req.expires_at actor

  abbrev Created : CreatedKey → Tables → Type 0
  Created c t = (c.secret ≡ secret_of draw) × IsIssued row t

  abbrev Anything : Tables → Type 0
  Anything t = Unit {0}

  create_key-Issued :
      Ensures Anything
        (create_key hash draw.key_id draw.db_now tenant_id req.name
          (secret_of draw)
          draw.prefix
          (or_allowed req.scopes)
          req.expires_at
          actor)
        (Issued row)
  unfolding create_key
  create_key-Issued =
      Ensures-past (Issued row) _ (other "key name must be 1-120 characters") (store_key row actor)
        (store_key-Issued row actor)

  new_key-Created : Ensures Anything (new_key hash draw tenant_id req actor) Created
  unfolding new_key
  new_key-Created =
      Ensures-past Created (check_scopes [] (or_allowed req.scopes))
        (other "invalid or duplicate scope") _
        (Ensures-past Created (unexpired draw.now req.expires_at)
          (other "expires_at must be in the future") _
          (Ensures-past Created (not draw.random_fails) (other "rand") _ (
            Ensures-bind Anything (Issued row) Created (create_key _ _ _ _ _ _ _ _ _ _)
              (λ k. pure (record { key = k; secret = secret_of draw })) create_key-Issued
              (λ k s h. (refl, h.1)))))

-- In the tables that a successful CreateKey leaves, Verify accepts the key that it returned, as the key
-- that was drawn, with the tenant and the scopes that were asked for, at any time before it expires,
-- if the prefix of the key has no dot and no call of Verify fails.
pub created_key_verifies :
    (hash : Bytes → Bytes) (draw : Draw) (tenant_id : ℕ) (req : CreateKeyRequest) (actor : Bytes)
    (s s' : Session Tables) (c : CreatedKey) (now : ℕ)
    → All (λ b. b ≢ 46) draw.prefix
    → new_key hash draw tenant_id req actor s ≡ (ok c, s')
    → unexpired now req.expires_at ≡ true
    → (verify hash now c.secret (record { db = s'.db; faults = [] })).0
      ≡ ok (
          some (record {
            tenant_id = tenant_id;
            key_id = draw.key_id;
            scopes = or_allowed req.scopes;
          }))
unfolding verify query call
created_key_verifies hash draw tenant_id req actor s s' c now no_dot made valid =
    ap (λ w. (verify hash now w after).0) created.0
    ∙ ap (λ o. (verify_prefix now (hash (secret_of draw)) o after).0)
        (prefix_of-secret_of draw no_dot)
    ∙ ap (λ o. (respond now o after).0) (issued_verifies now stored s'.db created.1 refl valid)
  where
    after : Session Tables
    after = record { db = s'.db; faults = [] }

    stored : ApiKey
    stored = row hash draw tenant_id req actor

    created : Created hash draw tenant_id req actor c s'.db
    created =
        Ensures-use (Anything hash draw tenant_id req actor) (Created hash draw tenant_id req actor)
          (new_key hash draw tenant_id req actor) s s' c
          (new_key-Created hash draw tenant_id req actor) tt made
