-- ===== src/Endpoint/Versions.antt =====
-- The life of an endpoint under the operations of
-- endpoint-service/internal/endpoint/repository.go.
use hookyard.Base.{
  ℕ, bytes, bytes_eq, ◌≡◌, refl, sym, ap, ◌∙◌, Bytes, Option, none, some, List, [], ◌==◌, if_rule,
  find, find-append_left,
}
use hookyard.Base.Session.{
  Error, M, ◌>>=◌, pure, throw, call, exec, query, statement, for_each, not_found, conflict,
}
use hookyard.Base.Keeps.{
  Keeps, Keeps-bind, Keeps-then, Keeps-call, Keeps-pure, Keeps-query, Keeps-exec, Keeps-statement,
  Keeps-for_each, Keeps-scoped, Turns, Turns-bind, Turns-unless, Turns-when, Turns-statement,
  Turns-exec, Turns-overlapped,
}
use hookyard.Base.Ensures.{Ensures, Ensures-bind, Ensures-query, Turns-ensured}
use hookyard.Endpoint.Store.{
  Endpoint, View, Policy, Tenant, Tables, CreateRequest, PatchRequest, Collation, Moment,
  is_deleted, has_id,
}
use hookyard.Endpoint.Repository.{
  some_or, scan_tx, get_policy, require_active, subscribe, unsubscribe, create_endpoint, patched,
  policy_for, resubscribe, patch_row, patch, retired, delete_row, delete,
}
use hookyard.Endpoint.Growth.{
  HasGrown, IsApart, Reads, Reads-weaken, same_endpoints, write_grows, others-Reads,
}

module _ (co : Collation) (id : ℕ) (r : Endpoint) where
  abbrev pub Grown : Tables → Type 0
  Grown = HasGrown id r

  some_or-Keeps :
      {A : Type 0} (P : Tables → Type 0) (x : Error) (o : Option A) → Keeps P (some_or x o)
  some_or-Keeps P x none s h = h
  some_or-Keeps P x (some a) s h = h

  get_policy-Keeps : (P : Tables → Type 0) (tenant_id key : ℕ) → Keeps P (get_policy tenant_id key)
  unfolding get_policy
  get_policy-Keeps P tenant_id key =
      Keeps-bind P (query _ _) _ (Keeps-query P _ _) (λ o. some_or-Keeps P _ o)

  scan_tx-Keeps : (P : Tables → Type 0) (x : Error) (key : ℕ) → Keeps P (scan_tx co x key)
  unfolding scan_tx
  scan_tx-Keeps P x key = Keeps-bind P (query _ _) _ (Keeps-query P _ _) (λ o.
      Keeps-bind P (some_or x o) _ (some_or-Keeps P x o) (λ row.
        Keeps-bind P (query _ _) _ (Keeps-query P _ _)
          (λ types. Keeps-pure P {A = View} (record { row = row; event_types = types }))))

  subscribe-Keeps : (key : ℕ) (event_type : Bytes) → Keeps Grown (subscribe co key event_type)
  unfolding subscribe
  subscribe-Keeps key event_type =
      Keeps-statement Grown _ _ _ (λ d q h. same_endpoints id r d _ refl h)

  unsubscribe-Keeps : (x : Error) (key : ℕ) → Keeps Grown (exec x (unsubscribe key))
  unsubscribe-Keeps x key =
      Keeps-exec Grown x (unsubscribe key) (λ d h. same_endpoints id r d _ refl h)

  resubscribe-Keeps : (key : ℕ) (o : Option (List Bytes)) → Keeps Grown (resubscribe co key o)
  resubscribe-Keeps key none = Keeps-pure Grown tt
  resubscribe-Keeps key (some types) =
      Keeps-then Grown (exec _ _) _ (unsubscribe-Keeps _ key)
        (Keeps-for_each Grown types (subscribe co key) (subscribe-Keeps key))

  policy_for-Keeps :
      (P : Tables → Type 0) (tenant_id key : ℕ) (o : Option Policy)
      → Keeps P (policy_for tenant_id key o)
  policy_for-Keeps P tenant_id key none = get_policy-Keeps P tenant_id key
  policy_for-Keeps P tenant_id key (some p) =
      if_rule (Keeps P) (p.id == key) (pure p) (get_policy tenant_id key) (λ same. Keeps-pure P p)
        (λ differs. get_policy-Keeps P tenant_id key)

  patch_row-Turns :
      (c : Moment) (tenant_id key : ℕ) (req : PatchRequest) (secret : Bytes)
      (policy : Option Policy) (e : Endpoint)
      → Turns (Reads id r key e) Grown (patch_row co c tenant_id key req secret policy e)
  unfolding patch_row patched
  patch_row-Turns c tenant_id key req secret policy e =
      Turns-when P P Grown (e.tenant_id == tenant_id) not_found _ weaken (λ owner.
        Turns-unless P P Grown (is_deleted e.status) conflict _ weaken (λ live.
          Turns-bind P P Grown (policy_for _ _ policy) _ (policy_for-Keeps P _ _ policy) weaken
            (λ p.
              Turns-statement P Grown Grown _ _ _ _ weaken
                (λ d. write_grows id r key tenant_id e _ d (λ y. refl) (λ y. refl) live) (λ d h. h)
                (Keeps-then Grown (resubscribe co key req.event_types) _
                  (resubscribe-Keeps key req.event_types)
                  (Keeps-bind Grown (scan_tx co _ key) _ (scan_tx-Keeps Grown _ key) (λ v.
                    Keeps-then Grown (call _) _ (Keeps-call Grown _)
                      (Keeps-pure Grown {A = View × Policy} (v, p))))))))
    where
      P : Tables → Type 0
      P = Reads id r key e

      weaken : (d : Tables) → P d → Grown d
      weaken = Reads-weaken id r key e

  some_or-Ensures :
      (x : Error) (key : ℕ) (o : Option Endpoint)
      → Ensures (λ t. Grown t × (find (has_id key) t.endpoints ≡ o)) (some_or x o) (Reads id r key)
  unfolding Reads
  some_or-Ensures x key none s h = tt
  some_or-Ensures x key (some e) s h =
      (h.0, λ same. ap (λ i. find (has_id i) s.db.endpoints) (sym same) ∙ h.1)

  scan_tx-Ensures :
      (x : Error) (key : ℕ) → Ensures Grown (scan_tx co x key) (λ v. Reads id r key v.row)
  unfolding scan_tx
  scan_tx-Ensures x key =
      Ensures-bind Grown R Q (query _ _) _ (Ensures-query Grown R _ _ (λ d h. (h, refl))) (λ o.
        Ensures-bind (R o) (Reads id r key) Q (some_or x o) _ (some_or-Ensures x key o) (λ row.
          Ensures-bind (Reads id r key row) (λ types. Reads id r key row) Q (query _ _) _
            (Ensures-query (Reads id r key row) (λ types. Reads id r key row) _ _ (λ d h. h))
            (λ types s h. h)))
    where
      R : Option Endpoint → Tables → Type 0
      R o t = Grown t × (find (has_id key) t.endpoints ≡ o)

      Q : View → Tables → Type 0
      Q v = Reads id r key v.row

  -- What Patch and Delete read first.
  scan_tx-Turns :
      {B : Type 0} (x : Error) (key : ℕ) (k : View → M Tables B)
      → ((v : View) → Turns (Reads id r key v.row) Grown (k v))
      → Turns Grown Grown (do v ← scan_tx co x key; k v)
  scan_tx-Turns x key k tk =
      Turns-ensured Grown Grown (λ v. Reads id r key v.row) (scan_tx co x key) k
        (scan_tx-Ensures x key) (scan_tx-Keeps Grown x key) (λ d h. h) tk

  pub patch-Keeps :
      (c : Moment) (tenant_id key : ℕ) (req : PatchRequest) (secret : Bytes)
      (policy : Option Policy)
      → IsApart id c.others
      → Keeps Grown (patch co c tenant_id key req secret policy)
  unfolding patch
  patch-Keeps c tenant_id key req secret policy apart =
      Keeps-then Grown (call _) _ (Keeps-call Grown _) (
        scan_tx-Turns not_found key _ (λ v.
          Turns-overlapped (Reads id r key v.row) (Reads id r key v.row) Grown c.others _
            (others-Reads id r c.others key v.row apart) (Reads-weaken id r key v.row)
            (patch_row-Turns c tenant_id key req secret policy v.row)))

  delete_row-Turns :
      (c : Moment) (tenant_id key : ℕ) (v : View)
      → Turns (Reads id r key v.row) Grown (delete_row c tenant_id key v)
  unfolding delete_row
  delete_row-Turns c tenant_id key v =
      Turns-when P P Grown (v.row.tenant_id == tenant_id) not_found _ weaken (λ owner.
        Turns-bind P P Grown (get_policy tenant_id v.row.retry_policy_id) _
          (get_policy-Keeps P tenant_id v.row.retry_policy_id) weaken
          (λ p.
            if_rule (Turns P Grown) (is_deleted v.row.status) _ _ (λ gone s h. weaken s.db h)
              (λ live.
                Turns-exec P Grown Grown _ _ _ weaken
                  (λ d. write_grows id r key tenant_id v.row _ d (λ y. refl) (λ y. refl) live)
                  (Keeps-then Grown (exec _ _) _ (unsubscribe-Keeps _ key) (
                    Keeps-then Grown (call _) _ (Keeps-call Grown _) (
                      Keeps-pure Grown {A = View × Policy}
                        (record { row = retired c v.row; event_types = [] }, p)))))))
    where
      P : Tables → Type 0
      P = Reads id r key v.row

      weaken : (d : Tables) → P d → Grown d
      weaken = Reads-weaken id r key v.row

  pub delete-Keeps :
      (c : Moment) (tenant_id key : ℕ)
      → IsApart id c.others
      → Keeps Grown (delete co c tenant_id key)
  unfolding delete
  delete-Keeps c tenant_id key apart = Keeps-then Grown (call _) _ (Keeps-call Grown _) (
      scan_tx-Turns not_found key _ (λ v.
        Turns-overlapped (Reads id r key v.row) (Reads id r key v.row) Grown c.others _
          (others-Reads id r c.others key v.row apart) (Reads-weaken id r key v.row)
          (delete_row-Turns c tenant_id key v)))

  require_active-Keeps : (o : Option Tenant) → Keeps Grown (require_active o)
  require_active-Keeps none = λ s h. h
  require_active-Keeps (some t) =
      if_rule (Keeps Grown) (bytes_eq t.status (bytes "ACTIVE")) (pure tt)
        (throw (Error.invalid "tenant is not active")) (λ ok. Keeps-pure Grown tt) (λ no s h. h)

  pub create_endpoint-Keeps :
      (key : ℕ) (c : Moment) (tenant_id : ℕ) (req : CreateRequest) (secret : Bytes)
      (policy : Policy)
      → Keeps Grown (create_endpoint co key c tenant_id req secret policy)
  unfolding create_endpoint
  create_endpoint-Keeps key c tenant_id req secret policy = Keeps-scoped Grown _ _ (
      Keeps-bind Grown (query _ _) _ (Keeps-query Grown _ _) (λ o.
        Keeps-then Grown (require_active o) _ (require_active-Keeps o) (
          Keeps-then Grown (statement _ _ _) _
            (Keeps-statement Grown _ _ _ (λ d q h. record {
              row = h.row;
              found = find-append_left (has_id id) d.endpoints _ h.row h.found;
              newer = h.newer;
              absorbed = h.absorbed;
            }))
            (Keeps-then Grown (for_each req.event_types (subscribe co key)) _
              (Keeps-for_each Grown req.event_types (subscribe co key) (subscribe-Keeps key))
              (Keeps-bind Grown (scan_tx co _ key) _ (scan_tx-Keeps Grown _ key)
                (λ v. Keeps-then Grown (call _) _ (Keeps-call Grown _) (Keeps-pure Grown v)))))))
