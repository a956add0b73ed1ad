-- ===== src/Endpoint/Statements.antt =====
-- The statements of which Patch of endpoint-service/internal/endpoint/repository.go is made.
use hookyard.Base.{
  ℕ, ◌≡◌, refl, sym, ap, ◌∙◌, select, map, not, ◌++◌, inl, inr, Bool-cases, [], ◌∷◌, Bytes, Option,
  none, some, List, ◌==◌, if_rule, find, find-passes, update, arith,
}
use mathlib.Core.List.{append_assoc, append-nil}
use hookyard.Base.Session.{for_each, Error, ◌>>=◌, pure, exec, query, other}
use hookyard.Base.Ensures.{
  Ensures, Ensures-bind, Ensures-then, Ensures-query, Ensures-exec, Ensures-statement,
  Ensures-weaken,
}
use hookyard.Endpoint.Store.{
  Endpoint, Subscription, of_endpoint, View, Policy, Tables, Collation, has_id, owned_by,
  has_policy, event_types_of,
}
use hookyard.Endpoint.Repository.{some_or, scan_tx, get_policy, subscribe, policy_for, resubscribe}

-- The endpoints and the subscriptions are those of `w`.
unfoldable pub Has : List Endpoint × List Subscription → Tables → Type 0
Has w t = (t.endpoints ≡ w.0) × (t.subscriptions ≡ w.1)

-- An update makes no rows: what is found after it was there.
pub update-found :
    (tenant_id id : ℕ) (f : Endpoint → Endpoint) (es : List Endpoint) (y : Endpoint)
    → ((x : Endpoint) → (f x).id ≡ x.id)
    → find (has_id id) (update (owned_by tenant_id id) f es) ≡ some y
    → (x : Endpoint) × (find (has_id id) es ≡ some x)
unfolding find update
update-found tenant_id id f [] y same e = absurd (cc)
update-found tenant_id id f (x ∷ xs) y same e = elim (Bool-cases (x.id == id)) [
  | inl hit ↦ (x, rw hit refl)
  | inr miss ↦
      let rest : find (has_id id) (update (owned_by tenant_id id) f xs) ≡ some y =
        ground (arith, same x, miss, e) in
      let there = update-found tenant_id id f xs y same rest in (there.0, rw miss there.1)
]

module _ (co : Collation) (tenant_id id : ℕ) where
  some_or-Ensures :
      {A : Type 0} (es : List Endpoint × List Subscription) (x : Error) (o : Option A)
      → Ensures (Has es) (some_or x o) (λ a t. Has es t × (o ≡ some a))
  some_or-Ensures es x none s h = tt
  some_or-Ensures es x (some a) s h = (h, refl)

  -- What is scanned is in the tables, and reading keeps all that is known of them.
  pub scan_tx-Ensures :
      (P : Tables → Type 0) (es : List Endpoint) (x : Error)
      → ((t : Tables) → P t → t.endpoints ≡ es)
      → Ensures P (scan_tx co x id) (λ v t.
        P t
        × (find (has_id id) es ≡ some v.row)
        × (v.event_types ≡ event_types_of co id t.subscriptions))
  unfolding scan_tx
  scan_tx-Ensures P es x has =
      Ensures-bind P R Q (query _ _) _
        (Ensures-query P R (other "scan endpoint") (λ t. find (has_id id) t.endpoints)
          (λ d h. (h, ap (find (has_id id)) (has d h))))
        (λ o. found o)
    where
      R : Option Endpoint → Tables → Type 0
      R o t = P t × (o ≡ find (has_id id) es)

      Q : View → Tables → Type 0
      Q v t =
          P t
          × (find (has_id id) es ≡ some v.row)
          × (v.event_types ≡ event_types_of co id t.subscriptions)

      found :
          (o : Option Endpoint)
          → Ensures
              (R o)
              (do
                row ← some_or x o
                types ←
                    query (other "load subscriptions") (λ t. event_types_of co id t.subscriptions)
                pure (record { row = row; event_types = types }))
              Q
      found none = λ s h. tt
      found (some row) =
          Ensures-bind (R (some row)) K Q (query _ _) _
            (Ensures-query (R (some row)) K _ _ (λ d h. (h.0, h.1, refl)))
            (λ types s h. (h.0, sym h.1, h.2))
        where
          K : List Bytes → Tables → Type 0
          K types t =
              P t
              × (some row ≡ find (has_id id) es)
              × (types ≡ event_types_of co id t.subscriptions)

  get_policy-Ensures :
      (es : List Endpoint × List Subscription) (key : ℕ)
      → Ensures (Has es) (get_policy tenant_id key) (λ p t. Has es t × (p.id ≡ key))
  unfolding get_policy
  get_policy-Ensures es key =
      Ensures-bind (Has es) R Q (query _ _) _ (Ensures-query (Has es) R _ _ (λ d h. (h, refl)))
        found
    where
      R : Option Policy → Tables → Type 0
      R o t = Has es t × (o ≡ find (has_policy tenant_id key) t.policies)

      Q : Policy → Tables → Type 0
      Q p t = Has es t × (p.id ≡ key)

      found : (o : Option Policy) → Ensures (R o) (some_or (other "get retry policy") o) Q
      found none s h = tt
      found (some p) s h =
          (h.0, ground (arith, find-passes (has_policy tenant_id key) s.db.policies p (sym h.1)))

  pub policy_for-Ensures :
      (es : List Endpoint × List Subscription) (key : ℕ) (o : Option Policy)
      → Ensures (Has es) (policy_for tenant_id key o) (λ p t. Has es t × (p.id ≡ key))
  policy_for-Ensures es key none = get_policy-Ensures es key
  policy_for-Ensures es key (some p) =
      if_rule (λ m. Ensures (Has es) m (λ q t. Has es t × (q.id ≡ key))) (p.id == key) (pure p)
        (get_policy tenant_id key) (λ same s h. (h, ground arith))
        (λ differs. get_policy-Ensures es key)

  abbrev pub subscription : Bytes → Subscription
  subscription event_type = record { endpoint_id = id; event_type = event_type }

  subscribe-Ensures :
      (es : List Endpoint) (ss : List Subscription) (event_type : Bytes)
      → Ensures
          (Has (es, ss))
          (subscribe co id event_type)
          (λ _. Has (es, ss ++ subscription event_type ∷ []))
  unfolding subscribe Has
  subscribe-Ensures es ss event_type =
      Ensures-statement (Has (es, ss)) (Has (es, ss ++ subscription event_type ∷ [])) _ _ _
        (λ d q h. (h.0, ap (λ l. l ++ subscription event_type ∷ []) h.1))

  subscribe_all-Ensures :
      (es : List Endpoint) (ss : List Subscription) (types : List Bytes)
      → Ensures
          (Has (es, ss))
          (for_each types (subscribe co id))
          (λ _. Has (es, ss ++ map subscription types))
  unfolding for_each Has
  subscribe_all-Ensures es ss [] s h = (h.0, h.1 ∙ sym (append-nil ss))
  subscribe_all-Ensures es ss (event_type ∷ types) s h =
      Ensures-then (Has (es, ss)) (Has (es, ss ++ subscription event_type ∷ []))
        (λ _. Has (es, ss ++ map subscription (event_type ∷ types))) (subscribe co id event_type) _
        (subscribe-Ensures es ss event_type)
        (Ensures-weaken (Has (es, ss ++ subscription event_type ∷ []))
          (λ _. Has (es, (ss ++ subscription event_type ∷ []) ++ map subscription types))
          (λ _. Has (es, ss ++ map subscription (event_type ∷ types)))
          (for_each types (subscribe co id))
          (λ u t k.
            (k.0, k.1 ∙ append_assoc ss (subscription event_type ∷ []) (map subscription types)))
          (subscribe_all-Ensures es (ss ++ subscription event_type ∷ []) types))
        s h

  -- The subscriptions after a patch.
  abbrev pub resubscribed : Option (List Bytes) → List Subscription → List Subscription
  resubscribed none ss = ss
  resubscribed (some types) ss = select (λ x. not (of_endpoint id x)) ss ++ map subscription types

  pub resubscribe-Ensures :
      (es : List Endpoint) (ss : List Subscription) (o : Option (List Bytes))
      → Ensures (Has (es, ss)) (resubscribe co id o) (λ _. Has (es, resubscribed o ss))
  unfolding Has
  resubscribe-Ensures es ss none = λ s h. h
  resubscribe-Ensures es ss (some types) =
      Ensures-then (Has (es, ss)) (Has (es, others_left))
        (λ _. Has (es, resubscribed (some types) ss)) (exec _ _) _
        (Ensures-exec (Has (es, ss)) (Has (es, others_left)) _ _
          (λ d h. (h.0, ap (select (λ x. not (of_endpoint id x))) h.1)))
        (subscribe_all-Ensures es others_left types)
    where
      others_left : List Subscription
      others_left = select (λ x. not (of_endpoint id x)) ss
