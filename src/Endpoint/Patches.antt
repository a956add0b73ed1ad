-- ===== src/Endpoint/Patches.antt =====
-- What Patch of endpoint-service/internal/endpoint/repository.go does when it succeeds.
use hookyard.Base.{
  ℕ, ◌≡◌, refl, sym, ap, ◌∙◌, subst, suc, select, map, not, ◌++◌, coalesce, Bytes, true, false,
  Option, none, some, List, ◌==◌, if◌then◌else◌, find, find-update, find-passes, update, arith,
}
use hookyard.Base.Session.{Session, ok, call, statement, not_found, conflict}
use hookyard.Base.Ensures.{
  Ensures, Ensures-bind, Ensures-then, Ensures-call, Ensures-statement, Ensures-overlapped,
  Ensures-use, Ensures-unless, Ensures-when,
}
use hookyard.Endpoint.Store.{
  Endpoint, Subscription, View, Policy, Tables, PatchRequest, Collation, Moment, is_deleted, has_id,
  owned_by, event_types_of,
}
use hookyard.Endpoint.Repository.{
  scan_tx, patched, write_patch, policy_for, resubscribe, patch_row, patch,
}
use hookyard.Endpoint.Statements.{
  Has, update-found, scan_tx-Ensures, policy_for-Ensures, resubscribed, resubscribe-Ensures,
}

-- What a patch writes over the row `current`, column by column, where it has read `read`.
pub record IsPatch (c : Moment) (req : PatchRequest) (secret : Bytes) (read current row : Endpoint)
    : Type 0 where
  pub name : row.name ≡ coalesce req.name read.name
  pub url : row.url ≡ coalesce req.url read.url
  pub connect_timeout :
      row.connect_timeout_ms ≡ coalesce req.connect_timeout_ms read.connect_timeout_ms
  pub request_timeout :
      row.request_timeout_ms ≡ coalesce req.request_timeout_ms read.request_timeout_ms
  pub retry_policy : row.retry_policy_id ≡ coalesce req.retry_policy_id read.retry_policy_id
  pub old_secret : req.secret ≡ none → row.secret_encrypted ≡ read.secret_encrypted
  pub new_secret : (plain : Bytes) → req.secret ≡ some plain → row.secret_encrypted ≡ secret
  pub version : row.version ≡ suc read.version
  pub updated : row.updated_at ≡ c.db_now
  -- The other columns are those of the row as it stands.
  pub kept : row ≡ record current {
    name = row.name;
    url = row.url;
    secret_encrypted = row.secret_encrypted;
    connect_timeout_ms = row.connect_timeout_ms;
    request_timeout_ms = row.request_timeout_ms;
    retry_policy_id = row.retry_policy_id;
    version = row.version;
    updated_at = row.updated_at;
  }

-- What a patch has done: the row that it read, the row as others have left it, and the endpoint that
-- it returns.
pub record IsPatched (co : Collation) (c : Moment) (tenant_id id : ℕ) (req : PatchRequest)
    (secret : Bytes) (before : Tables) (v : View) (p : Policy) (after : Tables) : Type 0 where
  pub read : Endpoint
  pub found : find (has_id id) before.endpoints ≡ some read
  pub owner : read.tenant_id ≡ tenant_id
  pub live : is_deleted read.status ≡ false
  pub current : Endpoint
  pub standing : find (has_id id) (c.others before).endpoints ≡ some current
  pub changed : IsPatch c req secret read current v.row
  pub stored : find (has_id id) after.endpoints ≡ some v.row
  pub old_types : req.event_types ≡ none → after.subscriptions ≡ (c.others before).subscriptions
  pub new_types :
      (types : List Bytes)
      → req.event_types ≡ some types
      → after.subscriptions
        ≡ select (λ x. not (x.endpoint_id == id)) (c.others before).subscriptions
          ++ map (λ event_type. record { endpoint_id = id; event_type = event_type }) types
  pub subscribed : v.event_types ≡ event_types_of co id after.subscriptions
  pub policy : p.id ≡ v.row.retry_policy_id

patched-IsPatch :
    (c : Moment) (req : PatchRequest) (secret : Bytes) (read current : Endpoint)
    → IsPatch c req secret read current (write_patch (patched c req secret read) current)
unfolding patched
patched-IsPatch c req secret read current = record {
  name = refl;
  url = refl;
  connect_timeout = refl;
  request_timeout = refl;
  retry_policy = refl;
  old_secret = λ e. rw e refl;
  new_secret = λ plain e. rw e refl;
  version = refl;
  updated = refl;
  kept = refl;
}

module _ (co : Collation) (c : Moment) (tenant_id id : ℕ) (req : PatchRequest) (secret : Bytes)
    (before : Tables) where
  abbrev Patched : View × Policy → Tables → Type 0
  Patched vp = IsPatched co c tenant_id id req secret before vp.0 vp.1

  abbrev mid : List Endpoint
  mid = (c.others before).endpoints

  abbrev mids : List Subscription
  mids = (c.others before).subscriptions

  -- What others commit does not hand the endpoint to another tenant: no statement does.
  abbrev KeepsOwner : Type 0
  KeepsOwner = (x : Endpoint) → find (has_id id) mid ≡ some x → x.tenant_id ≡ tenant_id

  -- From the row as it was read.
  patch_row-Ensures :
      (policy : Option Policy) (e : Endpoint)
      → find (has_id id) before.endpoints ≡ some e
      → KeepsOwner
      → Ensures (Has (mid, mids)) (patch_row co c tenant_id id req secret policy e) Patched
  unfolding patch_row patched Has
  patch_row-Ensures policy e found kept =
      Ensures-when P Patched (e.tenant_id == tenant_id) not_found _ (λ owner.
        Ensures-unless P Patched (is_deleted e.status) conflict _ (λ live.
          Ensures-bind P R Patched (policy_for tenant_id (new.retry_policy_id) policy) _
            (policy_for-Ensures co tenant_id id (mid, mids) (new.retry_policy_id) policy)
            (λ p.
              Ensures-then (R p) (W p) Patched (statement _ _ _) _
                (Ensures-statement (R p) (W p) _ _ _ (λ d q h.
                  ((ap (update (owned_by tenant_id id) (write_patch new)) h.0.0, h.0.1), h.1)))
                (λ s h.
                  Ensures-then (Has (es, mids)) (Has (es, ss)) Patched
                    (resubscribe co id req.event_types) _
                    (resubscribe-Ensures co tenant_id id es mids req.event_types)
                    (Ensures-bind (Has (es, ss)) V Patched (scan_tx co _ id) _
                      (scan_tx-Ensures co tenant_id id (Has (es, ss)) es _ (λ t h. h.0))
                      (λ v.
                        Ensures-then (V v) (V v) Patched (call _) _ (Ensures-call (V v) _)
                          (λ s k. result owner live v p h.1 s.db k)))
                    s h.0))))
    where
      P : Tables → Type 0
      P = Has (mid, mids)

      new : Endpoint
      new = patched c req secret e

      es : List Endpoint
      es = update (owned_by tenant_id id) (write_patch new) mid

      ss : List Subscription
      ss = resubscribed co tenant_id id req.event_types mids

      R : Policy → Tables → Type 0
      R p t = Has (mid, mids) t × (p.id ≡ new.retry_policy_id)

      W : Policy → Tables → Type 0
      W p t = Has (es, mids) t × (p.id ≡ new.retry_policy_id)

      V : View → Tables → Type 0
      V v t =
          Has (es, ss) t
          × (find (has_id id) es ≡ some v.row)
          × (v.event_types ≡ event_types_of co id t.subscriptions)

      result :
          (e.tenant_id == tenant_id) ≡ true
          → is_deleted e.status ≡ false
          → (v : View) (p : Policy) → p.id ≡ new.retry_policy_id
          → (t : Tables) → V v t
          → Patched (v, p) t
      result owner live v p same t k =
          let cur = update-found tenant_id id (write_patch new) mid v.row (λ y. refl) k.1 in
          let hit : owned_by tenant_id id cur.0 ≡ true =
            ground (arith, kept cur.0 cur.1, find-passes (has_id id) mid cur.0 cur.1) in
          let there : find (has_id id) es
              ≡ some (if owned_by tenant_id id cur.0 then write_patch new cur.0 else cur.0) =
            find-update (has_id id) (owned_by tenant_id id) (write_patch new) mid cur.0 (λ y. refl)
              cur.1 in
          let written : some (write_patch new cur.0) ≡ some v.row = sym (rw hit at there) ∙ k.1 in
          let changed : write_patch new cur.0 ≡ v.row = cc in
          record {
            read = e;
            found = found;
            owner = ground arith;
            live = live;
            current = cur.0;
            standing = cur.1;
            changed =
                subst (IsPatch c req secret e cur.0) changed (patched-IsPatch c req secret e cur.0);
            stored = ap (find (has_id id)) k.0.0 ∙ k.1;
            old_types = λ e. k.0.1 ∙ ap (λ o. resubscribed co tenant_id id o mids) e;
            new_types = λ types e. k.0.1 ∙ ap (λ o. resubscribed co tenant_id id o mids) e;
            subscribed = k.2;
            policy = same ∙ ap (λ y. y.retry_policy_id) changed;
          }

  patch-Ensures :
      (policy : Option Policy)
      → KeepsOwner
      → Ensures (λ t. t ≡ before) (patch co c tenant_id id req secret policy) Patched
  unfolding patch Has
  patch-Ensures policy kept = Ensures-then P P Patched (call _) _ (Ensures-call P _) (λ s e.
      Ensures-bind P V Patched (scan_tx co not_found id) _
        (scan_tx-Ensures co tenant_id id P before.endpoints not_found
          (λ t h. ap (λ u. u.endpoints) h))
        (λ v t k.
          Ensures-overlapped P (Has (mid, mids)) Patched c.others _
            (λ d q. (ap (λ u. (c.others u).endpoints) q, ap (λ u. (c.others u).subscriptions) q))
            (patch_row-Ensures policy v.row k.1 kept) t k.0)
        s e)
    where
      P : Tables → Type 0
      P t = t ≡ before

      V : View → Tables → Type 0
      V v t =
          (t ≡ before)
          × (find (has_id id) before.endpoints ≡ some v.row)
          × (v.event_types ≡ event_types_of co id t.subscriptions)

-- A patch that succeeds has read a live endpoint of the tenant. It returns, and leaves in the table,
-- the endpoint with the fields that the request names, the other fields that a patch can name and the
-- version next to it as they were read, whatever others have committed in between (as long as they do
-- not hand the endpoint to another tenant), and the rest, such as the status, as others have left it;
-- its event types are replaced by those that the request names, or stay; and with it come its event
-- types as they are in the table afterwards and the retry policy that it now has.
pub patch-IsPatched :
    (co : Collation) (c : Moment) (tenant_id id : ℕ) (req : PatchRequest) (secret : Bytes)
    (policy : Option Policy) (s s' : Session Tables) (v : View) (p : Policy)
    → ((x : Endpoint)
        → find (has_id id) (c.others s.db).endpoints ≡ some x
        → x.tenant_id ≡ tenant_id)
    → patch co c tenant_id id req secret policy s ≡ (ok (v, p), s')
    → IsPatched co c tenant_id id req secret s.db v p s'.db
patch-IsPatched co c tenant_id id req secret policy s s' v p kept run =
    Ensures-use _ _ (patch co c tenant_id id req secret policy) s s' (v, p)
      (patch-Ensures co c tenant_id id req secret s.db policy kept) refl run
