-- ===== src/Projection/Freshness.antt =====
-- What one change message does to the projection of delivery-service/internal/endpoint.
use hookyard.Base.{
  ℕ, ◌≡◌, refl, ap, ◌∙◌, inl, inr, Bytes, bytes_eq, bytes_eq_iff, Bool, true, false, ◌&&◌, ◌||◌,
  Option, none, some, List, [], ◌∷◌, ◌++◌, ◌==◌, ==_refl, ltb, Bool-cases, if◌then◌else◌, find,
  exists, select, update, arith,
}
use hookyard.Base.Session.{Session, Error, ok, exec, for_each}
use hookyard.Base.Ensures.{
  Ensures, Ensures-then, Ensures-exec, Ensures-transaction, Ensures-use, Ensures-weaken,
}
use hookyard.Projection.Store.{
  EndpointChanged, EndpointRow, SubscriptionRow, Projection, endpoint_row, is_endpoint,
  upsert_endpoint, is_subscription, subscribe, unsubscribe, upsert,
}

-- The version guard, as a choice between the row that is there and the message.
abbrev pub newer : EndpointChanged → Option EndpointRow → EndpointRow
newer e none = endpoint_row e
newer e (some row) = if ltb row.version e.version then endpoint_row e else row

find-absent :
    (id : ℕ) (rows : List EndpointRow) (row : EndpointRow)
    → exists (is_endpoint id) rows ≡ false
    → row.endpoint_id ≡ id
    → (find (is_endpoint id) rows ≡ none) × (find (is_endpoint id) (rows ++ row ∷ []) ≡ some row)
unfolding find exists
find-absent id [] row h e = ground arith
find-absent id (x ∷ xs) row h e = ground (arith, find-absent id xs row)

find-guarded :
    (e : EndpointChanged) (rows : List EndpointRow)
    → exists (is_endpoint e.endpoint_id) rows ≡ true
    → find (is_endpoint e.endpoint_id) (
        update
          (λ row. is_endpoint e.endpoint_id row && ltb row.version e.version)
          (λ _. endpoint_row e)
          rows)
      ≡ some (newer e (find (is_endpoint e.endpoint_id) rows))
unfolding find exists update
find-guarded e [] h = cc
find-guarded e (x ∷ xs) h = elim (Bool-cases (x.endpoint_id == e.endpoint_id)) [
  | inl hit ↦ ground arith
  | inr miss ↦ ground (arith, find-guarded e xs)
]

find-upsert :
    (e : EndpointChanged) (rows : List EndpointRow)
    → find (is_endpoint e.endpoint_id) (upsert_endpoint e rows)
      ≡ some (newer e (find (is_endpoint e.endpoint_id) rows))
unfolding upsert_endpoint
find-upsert e rows = elim (Bool-cases (exists (is_endpoint e.endpoint_id) rows)) [
  | inl there ↦ rw there (find-guarded e rows there)
  | inr new ↦
      let (gone, last) = find-absent e.endpoint_id rows (endpoint_row e) new refl in
      rw (new, gone) last
]

exists-unsubscribe :
    (id : ℕ) (event_type : Bytes) (rows : List SubscriptionRow)
    → exists (is_subscription id event_type) (unsubscribe id rows) ≡ false
unfolding unsubscribe select exists
exists-unsubscribe id event_type [] = refl
exists-unsubscribe id event_type (x ∷ xs) = ground (arith, exists-unsubscribe id event_type xs)

exists-snoc :
    (p : SubscriptionRow → Bool) (rows : List SubscriptionRow) (row : SubscriptionRow)
    → exists p (rows ++ row ∷ []) ≡ (exists p rows || p row)
unfolding exists
exists-snoc p [] row = ground arith
exists-snoc p (x ∷ xs) row = ground (arith, exists-snoc p xs row)

exists-same :
    (id : ℕ) (a b : Bytes) (rows : List SubscriptionRow)
    → bytes_eq a b ≡ true
    → exists (is_subscription id a) rows ≡ exists (is_subscription id b) rows
exists-same id a b rows h = ap (λ t. exists (is_subscription id t) rows) ((bytes_eq_iff a b).0 h)

exists-subscribe :
    (e : EndpointChanged) (a b : Bytes) (rows : List SubscriptionRow)
    → exists (is_subscription e.endpoint_id b) (subscribe e a rows)
      ≡ (exists (is_subscription e.endpoint_id b) rows || bytes_eq a b)
unfolding subscribe
exists-subscribe e a b rows = elim (Bool-cases (exists (is_subscription e.endpoint_id a) rows)) [
  | inl there ↦ rw there (kept (bytes_eq a b) refl there)
  | inr new ↦ rw new (added (exists-snoc (is_subscription e.endpoint_id b) rows _))
]
  where
    row : SubscriptionRow
    row = record { endpoint_id = e.endpoint_id; tenant_id = e.tenant_id; event_type = a }

    kept :
        (same : Bool)
        → bytes_eq a b ≡ same
        → exists (is_subscription e.endpoint_id a) rows ≡ true
        → exists (is_subscription e.endpoint_id b) rows
          ≡ (exists (is_subscription e.endpoint_id b) rows || same)
    kept true q there = ground (arith, exists-same e.endpoint_id a b rows q)
    kept false q there = ground arith

    added :
        exists (is_subscription e.endpoint_id b) (rows ++ row ∷ [])
          ≡ (exists (is_subscription e.endpoint_id b) rows || is_subscription e.endpoint_id b row)
        → exists (is_subscription e.endpoint_id b) (rows ++ row ∷ [])
          ≡ (exists (is_subscription e.endpoint_id b) rows || bytes_eq a b)
    added q = ground (arith, ==_refl e.endpoint_id)

abbrev Known : EndpointChanged → Bytes → List EndpointRow → Bool → Projection → Type 0
Known e b rows known p =
    (p.endpoints ≡ rows) × (exists (is_subscription e.endpoint_id b) p.subscriptions ≡ known)

-- The loop over the event types adds exactly those.
subscribe_loop-Ensures :
    (e : EndpointChanged) (b : Bytes) (types : List Bytes) (known : Bool) (rows : List EndpointRow)
    → Ensures
        (Known e b rows known)
        (for_each types (λ a.
          exec
            (Error.other "insert subscription")
            (λ p. record p { subscriptions = subscribe e a p.subscriptions })))
        (λ _. Known e b rows (known || exists (λ a. bytes_eq a b) types))
unfolding for_each exists
subscribe_loop-Ensures e b [] known rows s h = (h.0, h.1 ∙ ground arith)
subscribe_loop-Ensures e b (a ∷ types) known rows s h =
    Ensures-then (Known e b rows known) (Known e b rows (known || bytes_eq a b)) Q (exec _ _) _
      (Ensures-exec _ (Known e b rows (known || bytes_eq a b)) _ _
        (λ p k. (k.0, exists-subscribe e a b p.subscriptions ∙ ap (λ x. x || bytes_eq a b) k.1)))
      (Ensures-weaken (Known e b rows (known || bytes_eq a b)) _ Q (for_each types _)
        (λ u p k. (k.0, k.1 ∙ regroup known (bytes_eq a b) _))
        (subscribe_loop-Ensures e b types (known || bytes_eq a b) rows))
      s h
  where
    Q : Unit {0} → Projection → Type 0
    Q _ = Known e b rows (known || (bytes_eq a b || exists (λ x. bytes_eq x b) types))

    regroup : (x y z : Bool) → ((x || y) || z) ≡ (x || (y || z))
    regroup x y z = ground arith

-- What a change message leaves behind for its endpoint.
pub record IsUpserted (e : EndpointChanged) (b : Bytes) (before after : Projection) : Type 0 where
  pub row :
      find (is_endpoint e.endpoint_id) after.endpoints
      ≡ some (newer e (find (is_endpoint e.endpoint_id) before.endpoints))
  pub subscribed :
      exists (is_subscription e.endpoint_id b) after.subscriptions
      ≡ exists (λ a. bytes_eq a b) e.event_types

-- After a change message is processed, the row of its endpoint is the newer one of what was there
-- and the message, by version; but the subscriptions of the endpoint are those of the message
-- alone, so a message that is older than the row still replaces them.
pub upsert-IsUpserted :
    (e : EndpointChanged) (event_type : Bytes) (s s' : Session Projection)
    → upsert e s ≡ (ok tt, s')
    → IsUpserted e event_type s.db s'.db
unfolding upsert
upsert-IsUpserted e b s s' q =
    Ensures-use (λ p. p ≡ s.db) Q _ s s' tt
      (Ensures-transaction (λ p. p ≡ s.db) Q _ _ _
        (Ensures-then _ P Q (exec _ _) _
          (Ensures-exec _ P _ _ (λ p h. ap (λ u. upsert_endpoint e u.endpoints) h))
          (Ensures-then P P' Q (exec _ _) _
            (Ensures-exec P P' _ _ (λ p h. (h, exists-unsubscribe e.endpoint_id b p.subscriptions)))
            (Ensures-weaken P' _ Q (for_each e.event_types _) conclude
              (subscribe_loop-Ensures e b e.event_types false rows)))))
      refl q
  where
    rows : List EndpointRow
    rows = upsert_endpoint e s.db.endpoints

    P : Projection → Type 0
    P p = p.endpoints ≡ rows

    P' : Projection → Type 0
    P' p = (p.endpoints ≡ rows) × (exists (is_subscription e.endpoint_id b) p.subscriptions ≡ false)

    Q : Unit {0} → Projection → Type 0
    Q _ = IsUpserted e b s.db

    conclude :
        (u : Unit {0}) (p : Projection)
        → Known e b rows (exists (λ a. bytes_eq a b) e.event_types) p
        → Q u p
    conclude u p h = record {
      row = ap (find (is_endpoint e.endpoint_id)) h.0 ∙ find-upsert e s.db.endpoints;
      subscribed = h.1;
    }
