-- ===== src/Auth/Preservation.antt =====
-- The rule for invariants of the tables of auth-service/internal/repository/repository.go: what the
-- single statements keep, every operation and every history keep.
use hookyard.Base.{
  ℕ, ◌≡◌, refl, Bytes, bytes, Bool, false, Option, none, some, List, [], ◌∷◌, ◌++◌, if_rule, exists,
  find, update, arith,
}
use hookyard.Base.Session.{
  lift, Error, Result, other, not_found, Session, pure, throw, call, exec, query, statement,
}
use hookyard.Base.Keeps.{
  Keeps, Keeps-bind, Keeps-then, Keeps-call, Keeps-exec, Keeps-pure, Keeps-query, Keeps-statement,
  Keeps-scoped,
}
use hookyard.Auth.Store.{
  key_revoked, Tenant, ApiKey, AuditEntry, Tables, is_deleted, has_key, has_tenant, same_name,
}
use hookyard.Auth.Repository.{
  require, tenant_violation, create_tenant, some_or, get_tenant, is_live, retired, retire,
  or_deleted, audit, delete_tenant, key_violation, store_key, create_key, revoked, key_of,
  active_key_of, revoke, revoke_key, checked_name, checked_status, changed, rewritten, write_live,
  update_tenant, prefix_of, touched, respond, verify_prefix, verify,
}
use hookyard.Auth.Operations.{
  Functions, Operation, creates_tenant, updates_tenant, deletes_tenant, creates_key, revokes_key,
  verifies_token, perform, run,
}

-- What an invariant has to survive: the rows that are inserted, the log, the updates of tenants that
-- are not deleted, and those of keys, which revive none.
pub record IsPreserved (P : Tables → Type 0) : Type 0 where
  pub on_audit : (entry : AuditEntry) (t : Tables) → P t → P (audit entry t)
  pub on_tenant :
      (x : Tenant) (t : Tables)
      → exists (has_tenant x.id) t.tenants ≡ false
      → P t
      → P (record t { tenants = t.tenants ++ x ∷ [] })
  pub on_rewrite :
      (id : ℕ) (f : Tenant → Tenant) (t : Tables)
      → ((x : Tenant) → (f x).id ≡ x.id)
      → P t
      → P (record t { tenants = update (is_live id) f t.tenants })
  pub on_key :
      (k : ApiKey) (t : Tables)
      → exists (has_key k.id) t.keys ≡ false
      → P t
      → P (record t { keys = t.keys ++ k ∷ [] })
  pub on_key_update :
      (p : ApiKey → Bool) (f : ApiKey → ApiKey) (t : Tables)
      → ((k : ApiKey) → (f k).id ≡ k.id)
      → ((k : ApiKey) → k.status ≡ key_revoked → (f k).status ≡ key_revoked)
      → P t
      → P (record t { keys = update p f t.keys })

new_name :
    (lower : Bytes → Bytes) (x : Tenant) (t : Tables)
    → tenant_violation lower x t ≡ none
    → exists (has_tenant x.id) t.tenants ≡ false
unfolding tenant_violation
new_name lower x t free = ground arith

new_key_id :
    (k : ApiKey) (t : Tables) → key_violation k t ≡ none → exists (has_key k.id) t.keys ≡ false
unfolding key_violation
new_key_id k t free = ground arith

module _ (P : Tables → Type 0) (laws : IsPreserved P) where
  require-Keeps : (b : Bool) (e : Error) → Keeps P (require b e)
  require-Keeps b e = if_rule (Keeps P) b (pure tt) (throw e) (λ yes. Keeps-pure P tt) (λ no s h. h)

  audit-Keeps : (x : Error) (entry : AuditEntry) → Keeps P (exec x (audit entry))
  audit-Keeps x entry = Keeps-exec P x (audit entry) (laws.on_audit entry)

  get_tenant-Keeps : (key : ℕ) → Keeps P (get_tenant key)
  unfolding get_tenant
  get_tenant-Keeps key = Keeps-bind P (query _ _) _ (Keeps-query P _ _) found
    where
      found : (o : Option Tenant) → Keeps P (some_or not_found o)
      found none s h = h
      found (some t) s h = h

  create_tenant-Keeps :
      (lower : Bytes → Bytes) (key now : ℕ) (raw : Bytes)
      → Keeps P (create_tenant lower key now raw)
  unfolding create_tenant
  create_tenant-Keeps lower key now raw = Keeps-then P (require _ _) _ (require-Keeps _ _) (
      Keeps-then P (statement _ _ _) _
        (Keeps-statement P _ _ _ (λ t free. laws.on_tenant _ t (new_name lower _ t free)))
        (λ s h. h))

  lift-Keeps : {A : Type 0} (r : Result A) → Keeps P (lift r)
  lift-Keeps r s h = h

  rewritten-Keeps :
      (lower : Bytes → Bytes) (f : Tenant → Tenant) (key : ℕ) (o : Option Tenant)
      → ((x : Tenant) → (f x).id ≡ x.id)
      → Keeps P (rewritten lower f key o)
  rewritten-Keeps lower f key none same s h = h
  rewritten-Keeps lower f key (some t) same s h =
      if_rule {A = Result Tenant × Session Tables} (λ r. P r.1.db)
        (exists (same_name lower (f t)) s.db.tenants) _ _ (λ taken. h)
        (λ free. laws.on_rewrite key f s.db same h)

  write_live-Keeps :
      (lower : Bytes → Bytes) (f : Tenant → Tenant) (key : ℕ)
      → ((x : Tenant) → (f x).id ≡ x.id)
      → Keeps P (write_live lower f key)
  unfolding write_live
  write_live-Keeps lower f key same =
      Keeps-then P (call _) _ (Keeps-call P _)
        (λ s h. rewritten-Keeps lower f key (find (is_live key) s.db.tenants) same s h)

  update_tenant-Keeps :
      (lower : Bytes → Bytes) (now key : ℕ) (name status : Option Bytes)
      → Keeps P (update_tenant lower now key name status)
  unfolding update_tenant
  update_tenant-Keeps lower now key name status = Keeps-then P (require _ _) _ (require-Keeps _ _) (
      Keeps-bind P (lift (checked_name name)) _ (lift-Keeps (checked_name name)) (λ n.
        Keeps-bind P (lift (checked_status status)) _ (lift-Keeps (checked_status status))
          (λ st. write_live-Keeps lower (changed now n st) key (λ x. refl))))

  retire-Keeps : (now key : ℕ) → Keeps P (retire now key)
  unfolding retire
  retire-Keeps now key =
      Keeps-then P (call _) _ (Keeps-call P _)
        (λ s h. laws.on_rewrite key (retired now) s.db (λ x. refl) h)

  or_deleted-Keeps : (key : ℕ) (o : Option Tenant) → Keeps P (or_deleted key o)
  or_deleted-Keeps key (some t) = Keeps-pure P t
  or_deleted-Keeps key none =
      Keeps-bind P (get_tenant key) _ (get_tenant-Keeps key)
        (λ t. Keeps-then P (require _ _) _ (require-Keeps (is_deleted t.status) _) (Keeps-pure P t))

  delete_tenant-Keeps : (now key : ℕ) → Keeps P (delete_tenant now key)
  unfolding delete_tenant
  delete_tenant-Keeps now key = Keeps-scoped P _ _ (
      Keeps-bind P (retire now key) _ (retire-Keeps now key) (λ o.
        Keeps-bind P (or_deleted key o) _ (or_deleted-Keeps key o) (λ t.
          Keeps-then P (exec _ _) _
            (Keeps-exec P _ _
              (λ t. laws.on_key_update (key_of key) (revoked now) t (λ k. refl) (λ k r. refl)))
            (Keeps-then P (exec _ _) _ (audit-Keeps _ _)
              (Keeps-then P (call _) _ (Keeps-call P _) (Keeps-pure P t))))))

  create_key-Keeps :
      (hash : Bytes → Bytes) (key now tenant_id : ℕ) (raw secret prefix : Bytes)
      (scopes : List Bytes) (expires : Option ℕ) (actor : Bytes)
      → Keeps P (create_key hash key now tenant_id raw secret prefix scopes expires actor)
  unfolding create_key store_key
  create_key-Keeps hash key now tenant_id raw secret prefix scopes expires actor =
      Keeps-then P (require _ _) _ (require-Keeps _ _) (
        Keeps-bind P (query _ _) _ (Keeps-query P _ _) (λ is_there.
          Keeps-then P (require is_there _) _ (require-Keeps is_there _) (
            Keeps-then P (statement _ _ _) _
              (Keeps-statement P _ _ _ (λ t free. laws.on_key _ t (new_key_id _ t free)))
              (audit-Keeps (other "audit") (record {
                tenant_id = tenant_id;
                key_id = some key;
                action = bytes "api_key.created";
                actor = actor;
              })))))

  revoke_key-Keeps :
      (now tenant_id key : ℕ) (actor : Bytes) → Keeps P (revoke_key now tenant_id key actor)
  unfolding revoke_key revoke
  revoke_key-Keeps now tenant_id key actor =
      Keeps-bind P (revoke now tenant_id key) _
        (Keeps-then P (call _) _ (Keeps-call P _) (λ s h.
          laws.on_key_update (active_key_of tenant_id key) (revoked now) s.db (λ k. refl)
            (λ k r. refl) h))
        (λ any. Keeps-then P (require any _) _ (require-Keeps any _) (audit-Keeps _ _))

  respond-Keeps : (now : ℕ) (o : Option ApiKey) → Keeps P (respond now o)
  respond-Keeps now none = λ s h. h
  respond-Keeps now (some k) =
      Keeps-exec P (other "touch")
        (λ t. record t { keys = update (has_key k.id) (touched now) t.keys })
        (λ t. laws.on_key_update (has_key k.id) (touched now) t (λ k. refl) (λ k r. r))

  verify-Keeps : (hash : Bytes → Bytes) (now : ℕ) (token : Bytes) → Keeps P (verify hash now token)
  unfolding verify
  verify-Keeps hash now token = verify_prefix-Keeps (prefix_of token)
    where
      verify_prefix-Keeps : (o : Option Bytes) → Keeps P (verify_prefix now (hash token) o)
      verify_prefix-Keeps none = λ s h. h
      verify_prefix-Keeps (some prefix) =
          Keeps-bind P (query _ _) _ (Keeps-query P _ _) (respond-Keeps now)

  perform-Keeps : (fs : Functions) (op : Operation) → Keeps P (perform fs op)
  unfolding perform
  perform-Keeps fs (creates_tenant key now name) =
      Keeps-bind P (create_tenant _ _ _ _) _ (create_tenant-Keeps fs.lower key now name)
        (λ t s h. h)
  perform-Keeps fs (updates_tenant now key name status) =
      Keeps-bind P (update_tenant _ _ _ _ _) _ (update_tenant-Keeps fs.lower now key name status)
        (λ t s h. h)
  perform-Keeps fs (deletes_tenant now key) =
      Keeps-bind P (delete_tenant _ _) _ (delete_tenant-Keeps now key) (λ t s h. h)
  perform-Keeps fs (creates_key key now tenant_id name secret prefix scopes expires actor) =
      Keeps-bind P (create_key _ _ _ _ _ _ _ _ _ _) _
        (create_key-Keeps fs.hash key now tenant_id name secret prefix scopes expires actor)
        (λ t s h. h)
  perform-Keeps fs (revokes_key now tenant_id key actor) = revoke_key-Keeps now tenant_id key actor
  perform-Keeps fs (verifies_token now token) =
      Keeps-bind P (verify _ _ _) _ (verify-Keeps fs.hash now token) (λ t s h. h)

  pub run-Keeps :
      (fs : Functions) (history : List (Operation × List Bool)) (t : Tables)
      → P t
      → P (run fs history t)
  unfolding run
  run-Keeps fs [] t h = h
  run-Keeps fs ((op, faults) ∷ rest) t h =
      run-Keeps fs rest _ (perform-Keeps fs op (record { db = t; faults = faults }) h)
