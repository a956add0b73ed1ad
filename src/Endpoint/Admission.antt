-- ===== src/Endpoint/Admission.antt =====
-- What Create of endpoint-service/internal/endpoint/service.go lets in.
use hookyard.Base.{
  ℕ, ◌≡◌, refl, sym, ap, ◌∙◌, ◌≢◌, Bytes, false, Option, none, some, [], ◌∷◌, ◌++◌, ==_refl, find,
  find-hit, find-append, find-none, exists, arith,
}
use hookyard.Base.Session.{
  lift, Error, Result, ok, err, other, Session, M, bind, ◌>>=◌, pure, call, query, statement,
  for_each,
}
use hookyard.Base.Ensures.{
  Ensures, Ensures-bind, Ensures-then, Ensures-call, Ensures-const, Ensures-query,
  Ensures-statement, Ensures-for_each, Ensures-scoped, Ensures-use,
}
use hookyard.Validation.Rules.{endpoint_name, webhook_url, timeout, event_types}
use hookyard.Endpoint.Store.{
  active, Endpoint, View, Policy, Tables, CreateRequest, Collation, Moment, has_id,
  insert_violation, event_types_of,
}
use hookyard.Endpoint.Repository.{
  some_or, scan_tx, require_active, subscribe, new_endpoint, create_endpoint,
}
use hookyard.Endpoint.Service.{
  Service, validate_tenant, normalize_create, check_secret, resolve_policy, encrypted,
  create_normalized, create,
}

-- A bind that succeeds: both of its parts have.
bind_ok :
    {A B : Type 0} (r : Result A × Session Tables) (f : A → M Tables B) (b : B)
    (s' : Session Tables)
    → bind r f ≡ (ok b, s')
    → (a : A) × (t : Session Tables) × (r ≡ (ok a, t)) × (f a t ≡ (ok b, s'))
bind_ok (ok a, t) f b s' e = (a, t, refl, e)
bind_ok (err x, t) f b s' e = cc

-- The same of a check, which leaves the session alone.
lift_ok :
    {A B : Type 0} (r : Result A) (s : Session Tables) (f : A → M Tables B) (b : B)
    (s' : Session Tables)
    → bind (lift r s) f ≡ (ok b, s')
    → (a : A) × (r ≡ ok a) × (f a s ≡ (ok b, s'))
lift_ok (ok a) s f b s' e = (a, refl, e)
lift_ok (err x) s f b s' e = cc

module _ (co : Collation) (id : ℕ) (c : Moment) (tenant_id : ℕ) (req : CreateRequest)
    (secret : Bytes) (policy : Policy) where
  abbrev new : Endpoint
  new = new_endpoint id c tenant_id req secret policy

  -- The new endpoint stands in the table.
  Stands : Tables → Type 0
  Stands t = find (has_id id) t.endpoints ≡ some new

  abbrev Anything : Tables → Type 0
  Anything t = Unit

  abbrev IsNew : View → Tables → Type 0
  IsNew v t = v.row ≡ new

  insert-Stands :
      (t : Tables)
      → insert_violation co new t ≡ none
      → Stands (record t { endpoints = t.endpoints ++ new ∷ [] })
  unfolding insert_violation Stands
  insert-Stands t free =
      let unused : exists (has_id id) t.endpoints ≡ false = ground arith in
      find-append (has_id id) t.endpoints (new ∷ []) (find-none (has_id id) t.endpoints unused)
      ∙ find-hit (has_id id) new [] (==_refl id)

  scan_tx-IsNew : (x : Error) → Ensures Stands (scan_tx co x id) IsNew
  unfolding scan_tx Stands
  scan_tx-IsNew x =
      Ensures-bind Stands (λ o _. o ≡ some new) IsNew (query _ _) _
        (Ensures-query Stands (λ o _. o ≡ some new) _ (λ t. find (has_id id) t.endpoints)
          (λ d h. h))
        scanned
    where
      scanned :
          (o : Option Endpoint)
          → Ensures
              (λ _. o ≡ some new)
              (do
                row ← some_or x o
                types ←
                    query (other "load subscriptions") (λ t. event_types_of co id t.subscriptions)
                pure (record { row = row; event_types = types }))
              IsNew
      scanned none = λ s h. tt
      scanned (some row) =
          Ensures-bind (λ _. some row ≡ some new) (λ _ _. some row ≡ some new) IsNew (query _ _) _
            (Ensures-const (some row ≡ some new) _) (λ types s h. let same : row ≡ new = cc in same)

  create_endpoint-IsNew :
      Ensures Anything (create_endpoint co id c tenant_id req secret policy) IsNew
  unfolding create_endpoint subscribe Stands
  create_endpoint-IsNew = Ensures-scoped Anything IsNew _ _ (
      Ensures-bind Anything (λ _. Anything) IsNew (query _ _) _ (Ensures-const Unit _)
        (λ o. Ensures-then Anything Anything IsNew (require_active o) _ (Ensures-const Unit _) (
          Ensures-then Anything Stands IsNew (statement _ _ _) _
            (Ensures-statement Anything Stands _ _ _ (λ t free h. insert-Stands t free))
            (Ensures-then Stands Stands IsNew (for_each req.event_types (subscribe co id)) _
              (Ensures-for_each Stands req.event_types (subscribe co id)
                (λ x. Ensures-statement Stands Stands _ _ _ (λ t q h. h)))
              (Ensures-bind Stands IsNew IsNew (scan_tx co _ id) _ (scan_tx-IsNew _) (λ v.
                Ensures-then (IsNew v) (IsNew v) IsNew (call _) _ (Ensures-call (IsNew v) _)
                  (λ s h. h)))))))

-- What is known of an endpoint that was created.
pub record IsAdmitted (sv : Service) (tenant_id : ℕ) (secret : Bytes) (v : View) : Type 0 where
  pub sealed : sv.encrypt secret ≡ some v.row.secret_encrypted
  pub tenant : tenant_id ≢ 0
  pub owner : v.row.tenant_id ≡ tenant_id
  pub name : endpoint_name v.row.name ≡ ok tt
  pub url : webhook_url sv.parse_url v.row.url sv.allow_http ≡ ok tt
  pub connect_timeout : timeout v.row.connect_timeout_ms ≡ ok tt
  pub request_timeout : timeout v.row.request_timeout_ms ≡ ok tt
  pub first : v.row.version ≡ 1
  pub live : v.row.status ≡ active

encrypted-some : (o : Option Bytes) (b : Bytes) → encrypted o ≡ ok b → o ≡ some b
encrypted-some (some a) b e = ground arith
encrypted-some none b e = cc

-- The checks that a request has passed, for the row that was made of it.
admit :
    (sv : Service) (id : ℕ) (c : Moment) (tenant_id : ℕ) (r : CreateRequest) (secret : Bytes)
    (policy : Policy) (v : View)
    → encrypted (sv.encrypt r.secret) ≡ ok secret
    → validate_tenant tenant_id ≡ ok tt
    → endpoint_name r.name ≡ ok tt
    → webhook_url sv.parse_url r.url sv.allow_http ≡ ok tt
    → timeout r.connect_timeout_ms ≡ ok tt
    → timeout r.request_timeout_ms ≡ ok tt
    → v.row ≡ new_endpoint id c tenant_id r secret policy
    → IsAdmitted sv tenant_id r.secret v
unfolding validate_tenant
admit sv id c tenant_id r secret policy v cipher tenant name url connect request made = record {
  sealed =
      encrypted-some (sv.encrypt r.secret) secret cipher
      ∙ ap (λ e. some e.secret_encrypted) (sym made);
  tenant = λ zero. absurd (ground arith);
  owner = ap (λ e. e.tenant_id) made;
  name = ap (λ e. endpoint_name e.name) made ∙ name;
  url = ap (λ e. webhook_url sv.parse_url e.url sv.allow_http) made ∙ url;
  connect_timeout = ap (λ e. timeout e.connect_timeout_ms) made ∙ connect;
  request_timeout = ap (λ e. timeout e.request_timeout_ms) made ∙ request;
  first = ap (λ e. e.version) made;
  live = ap (λ e. e.status) made;
}

-- An endpoint that the service creates belongs to a tenant that is not nil, its name, its URL and its
-- two timeouts are as the validators want them, defaults and cut white space included, and it is
-- active and at version one. Its secret is stored as the cipher gave it.
pub create-IsAdmitted :
    (sv : Service) (fresh_policy id : ℕ) (c : Moment) (tenant_id : ℕ) (req : CreateRequest)
    (s s' : Session Tables) (v : View)
    → create sv fresh_policy id c tenant_id req s ≡ (ok v, s')
    → IsAdmitted sv tenant_id req.secret v
unfolding normalize_create create create_normalized
create-IsAdmitted sv fresh_policy id c tenant_id req s s' v run =
    let r : CreateRequest = normalize_create req in
    let (_, tenant, run1) = lift_ok (validate_tenant tenant_id) s _ v s' run in
    let (_, name, run2) = lift_ok (endpoint_name r.name) s _ v s' run1 in
    let (_, url, run3) = lift_ok (webhook_url sv.parse_url r.url sv.allow_http) s _ v s' run2 in
    let (_, _, run4) = lift_ok (check_secret r.secret) s _ v s' run3 in
    let (_, connect, run5) = lift_ok (timeout r.connect_timeout_ms) s _ v s' run4 in
    let (_, request, run6) = lift_ok (timeout r.request_timeout_ms) s _ v s' run5 in
    let (types, _, run7) = lift_ok (event_types r.event_types) s _ v s' run6 in
    let (policy, t, _, run8) =
      bind_ok (resolve_policy fresh_policy tenant_id r.retry_policy_id s) _ v s' run7 in
    let (secret, cipher, run9) = lift_ok (encrypted (sv.encrypt r.secret)) t _ v s' run8 in
    let made : v.row
        ≡ new_endpoint id c tenant_id (record r { event_types = types }) secret policy =
      Ensures-use (λ _. Unit {0})
        (λ w _.
          w.row ≡ new_endpoint id c tenant_id (record r { event_types = types }) secret policy)
        _ t s' v
        (create_endpoint-IsNew sv.collation id c tenant_id (record r { event_types = types }) secret
          policy)
        tt run9 in
    admit sv id c tenant_id (record r { event_types = types }) secret policy v cipher tenant name
      url connect request made
