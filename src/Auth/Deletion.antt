-- ===== src/Auth/Deletion.antt =====
-- That no key of a deleted tenant is accepted again (auth-service/internal/repository/repository.go).
use hookyard.Base.{
  ℕ, ◌≡◌, refl, sym, ap, ◌∙◌, ◌≢◌, subst, Bytes, Bool, true, false, ◌&&◌, Option, none, some, List,
  [], ◌∷◌, ◌++◌, ◌==◌, All, All-append, All-update, find, find-passes, exists, exists-append_left,
  exists-update, exists-found, update, arith,
}
use hookyard.Base.Session.{Session, Error, ok, call, exec, query, not_found}
use hookyard.Base.Ensures.{
  Ensures, Ensures-bind, Ensures-then, Ensures-call, Ensures-exec, Ensures-query, Ensures-pure,
  Ensures-scoped, Ensures-use,
}
use hookyard.Auth.Store.{Tenant, ApiKey, Tables, is_deleted, is_active, has_tenant}
use hookyard.Auth.Repository.{
  Verified, verifies, verify, is_live, retired, returned, retire, or_deleted, some_or, require,
  get_tenant, delete_tenant,
}
use hookyard.Auth.Operations.{Functions, Operation, run}
use hookyard.Auth.Preservation.{IsPreserved, run-Keeps}
use hookyard.Auth.Verification.{Accepts, verify-Ensures}

abbrev AllDeleted : ℕ → List Tenant → Type 0
AllDeleted id ts = All (λ x. x.id ≡ id → is_deleted x.status ≡ true) ts

-- There is a tenant `id`, and it is deleted.
pub record HasLeft (id : ℕ) (t : Tables) : Type 0 where
  pub present : exists (has_tenant id) t.tenants ≡ true
  pub all : AllDeleted id t.tenants

other_table : (id : ℕ) (t t' : Tables) → t'.tenants ≡ t.tenants → HasLeft id t → HasLeft id t'
other_table id t t' e h = record {
  present = ap (exists (has_tenant id)) e ∙ h.present;
  all = subst (AllDeleted id) (sym e) h.all;
}

insert-HasLeft :
    (id : ℕ) (x : Tenant) (t : Tables)
    → exists (has_tenant x.id) t.tenants ≡ false
    → HasLeft id t
    → HasLeft id (record t { tenants = t.tenants ++ x ∷ [] })
insert-HasLeft id x t unused h = record {
  present = exists-append_left (has_tenant id) t.tenants _ h.present;
  all = All-append _ t.tenants _ h.all (
    (λ e.
        absurd
          (clash unused (subst (λ i. exists (has_tenant i) t.tenants ≡ true) (sym e) h.present))),
    tt,
  );
}
  where
    clash : {b : Bool} → b ≡ false → b ≡ true → ⊥
    clash p q = cc

rewrite-HasLeft :
    (id key : ℕ) (f : Tenant → Tenant) (t : Tables)
    → ((x : Tenant) → (f x).id ≡ x.id)
    → HasLeft id t
    → HasLeft id (record t { tenants = update (is_live key) f t.tenants })
rewrite-HasLeft id key f t same h = record {
  present =
      exists-update (has_tenant id) (is_live key) f t.tenants (λ x. ap (λ i. i == id) (same x))
      ∙ h.present;
  all =
      All-update _ (is_live key) f t.tenants
        (λ x hit gone e. absurd (live x hit (gone (sym (same x) ∙ e)))) h.all;
}
  where
    live : (x : Tenant) → is_live key x ≡ true → is_deleted x.status ≡ true → ⊥
    live x hit gone = ground arith

HasLeft-IsPreserved : (id : ℕ) → IsPreserved (HasLeft id)
HasLeft-IsPreserved id = record {
  on_audit = λ entry t h. other_table id t _ refl h;
  on_tenant = insert-HasLeft id;
  on_rewrite = rewrite-HasLeft id;
  on_key = λ k t free h. other_table id t _ refl h;
  on_key_update = λ p f t same stays h. other_table id t _ refl h;
}

-- The update of DeleteTenant leaves no live row of the tenant.
retired-AllDeleted :
    (now id : ℕ) (ts : List Tenant) → AllDeleted id (update (is_live id) (retired now) ts)
unfolding update
retired-AllDeleted now id [] = tt
retired-AllDeleted now id (x ∷ xs) = ((λ e. ground (arith, e)), retired-AllDeleted now id xs)

abbrev Anything : Tables → Type 0
Anything t = Unit

-- What `retire` leaves, and what a row that it returns says.
abbrev Retired : ℕ → Option Tenant → Tables → Type 0
Retired id o t =
    AllDeleted id t.tenants × ((x : Tenant) → o ≡ some x → exists (has_tenant id) t.tenants ≡ true)

retire-Retired : (now id : ℕ) → Ensures Anything (retire now id) (Retired id)
unfolding retire
retire-Retired now id =
    Ensures-then Anything Anything (Retired id) (call _) _ (Ensures-call Anything _) (λ s h. (
      retired-AllDeleted now id s.db.tenants,
      found s.db.tenants (find (is_live id) s.db.tenants) refl,
    ))
  where
    found :
        (ts : List Tenant) (o : Option Tenant)
        → find (is_live id) ts ≡ o
        → (x : Tenant) → returned now o ≡ some x
        → exists (has_tenant id) (update (is_live id) (retired now) ts) ≡ true
    found ts none e x q = cc
    found ts (some y) e x q =
        exists-update (has_tenant id) (is_live id) (retired now) ts (λ z. refl)
        ∙ exists-found (is_live id) (has_tenant id) ts (λ z hit. ground arith) e

required : (P : Tables → Type 0) (b : Bool) (e : Error) → Ensures P (require b e) (λ _. P)
required P true e s h = h
required P false e s h = tt

or_deleted-HasLeft :
    (id : ℕ) (o : Option Tenant) → Ensures (Retired id o) (or_deleted id o) (λ _. HasLeft id)
unfolding get_tenant
or_deleted-HasLeft id (some x) = λ s h. record { present = h.1 x refl; all = h.0 }
or_deleted-HasLeft id none =
    Ensures-bind (Retired id none) Read Q (get_tenant id) _
      (Ensures-bind (Retired id none) Found Read (query _ _) _
        (Ensures-query (Retired id none) Found _ _ (λ t h.
          (h.0, λ x e. exists-found (has_tenant id) (has_tenant id) t.tenants (λ y hit. hit) e)))
        read)
      (λ x.
        Ensures-then (Read x) (Read x) Q (require (is_deleted x.status) _) _
          (required (Read x) (is_deleted x.status) _) (Ensures-pure (Read x) Q x (λ t h. h)))
  where
    Read : Tenant → Tables → Type 0
    Read x = HasLeft id

    Q : Tenant → Tables → Type 0
    Q x = HasLeft id

    Found : Option Tenant → Tables → Type 0
    Found o t =
        AllDeleted id t.tenants
        × ((x : Tenant) → o ≡ some x → exists (has_tenant id) t.tenants ≡ true)

    read : (o : Option Tenant) → Ensures (Found o) (some_or not_found o) Read
    read none s h = tt
    read (some x) s h = record { present = h.1 x refl; all = h.0 }

-- No active tenant has the id.
not_active :
    (id : ℕ) (ts : List Tenant)
    → AllDeleted id ts
    → exists (λ x. has_tenant id x && is_active x.status) ts ≡ false
unfolding exists
not_active id [] h = refl
not_active id (x ∷ xs) h = ground (arith, h.0, not_active id xs h.1)

delete_tenant-HasLeft : (now id : ℕ) → Ensures Anything (delete_tenant now id) (λ _. HasLeft id)
unfolding delete_tenant
delete_tenant-HasLeft now id = Ensures-scoped Anything Q _ _ (
    Ensures-bind Anything (Retired id) Q (retire now id) _ (retire-Retired now id) (λ o.
      Ensures-bind (Retired id o) (λ _. Left) Q (or_deleted id o) _ (or_deleted-HasLeft id o)
        (λ x.
          Ensures-then Left Left Q (exec _ _) _
            (Ensures-exec Left Left _ _ (λ t. other_table id t _ refl))
            (Ensures-then Left Left Q (exec _ _) _
              (Ensures-exec Left Left _ _ (λ t. other_table id t _ refl))
              (Ensures-then Left Left Q (call _) _ (Ensures-call Left _)
                (Ensures-pure Left Q x (λ t h. h)))))))
  where
    Left : Tables → Type 0
    Left = HasLeft id

    Q : Tenant → Tables → Type 0
    Q x = HasLeft id

-- A key that is found by Verify has a tenant that is active.
not_verified :
    (id now : ℕ) (prefix sum : Bytes) (t : Tables) (k : ApiKey)
    → HasLeft id t
    → find (verifies now prefix sum t.tenants) t.keys ≡ some k
    → k.tenant_id ≢ id
unfolding verifies
not_verified id now prefix sum t k h found e =
    let none_active : exists (λ x. has_tenant k.tenant_id x && is_active x.status) t.tenants
        ≡ false =
      subst (λ i. exists (λ x. has_tenant i x && is_active x.status) t.tenants ≡ false) (sym e)
        (not_active id t.tenants h.all) in
    absurd (ground (arith, none_active, find-passes _ t.keys k found))

-- Once a tenant is deleted, no token is verified for it again, whichever keys it has or had, and
-- whatever tenants and keys are created, updated, deleted, revoked and verified in between, on any
-- failures of calls: nothing revives the tenant.
pub deleted_for_good :
    (fs : Functions) (history : List (Operation × List Bool)) (id deleted_at now : ℕ) (x : Tenant)
    (s s' : Session Tables) (token : Bytes) (faults : List Bool) (v : Verified)
    (s'' : Session Tables)
    → delete_tenant deleted_at id s ≡ (ok x, s')
    → verify fs.hash now token (record { db = run fs history s'.db; faults = faults })
      ≡ (ok (some v), s'')
    → v.tenant_id ≢ id
deleted_for_good fs history id deleted_at now x s s' token faults v s'' gone run_ok e =
    let left : HasLeft id s'.db =
      Ensures-use Anything (λ _. HasLeft id) _ s s' x (delete_tenant-HasLeft deleted_at id) tt
        gone in
    let (k, other, _, same) =
      Ensures-use (HasLeft id) (Accepts (λ k. k.tenant_id ≢ id)) (verify fs.hash now token)
        (record { db = run fs history s'.db; faults = faults }) s'' (some v)
        (verify-Ensures (HasLeft id) (λ k. k.tenant_id ≢ id) fs.hash now token
          (λ prefix. not_verified id now prefix (fs.hash token)))
        (run-Keeps (HasLeft id) (HasLeft-IsPreserved id) fs history s'.db left) run_ok v refl in
    other (same ∙ e)
