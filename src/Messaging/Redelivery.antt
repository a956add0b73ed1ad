-- ===== src/Messaging/Redelivery.antt =====
-- A message of delivery-service/internal/kafka/endpointHandler.go that is delivered twice.
use hookyard.Base.{
  ℕ, ◌≡◌, refl, ap, ap₂, sym, ◌∙◌, inl, inr, Bytes, Bool, true, false, ◌&&◌, Option, none, some,
  List, [], ◌∷◌, ◌++◌, ==_refl, ltb, Bool-cases, exists, select, update, arith,
}
use hookyard.Base.Session.{Session, Error, ok, exec, for_each}
use hookyard.Base.Ensures.{
  Ensures, Ensures-then, Ensures-exec, Ensures-transaction, Ensures-use, Ensures-weaken,
}
use hookyard.Projection.Store.{
  EndpointChanged, EndpointRow, SubscriptionRow, Projection, endpoint_row, is_endpoint,
  upsert_endpoint, is_subscription, subscribe, unsubscribe, upsert,
}
use hookyard.Messaging.EndpointHandler.{copy, handle_decoded, handle}

abbrev subscribe_all : EndpointChanged → List Bytes → List SubscriptionRow → List SubscriptionRow
subscribe_all e [] rows = rows
subscribe_all e (a ∷ types) rows = subscribe_all e types (subscribe e a rows)

-- What a change message makes of the two tables.
abbrev upserted : EndpointChanged → Projection → Projection
upserted e p = record {
  endpoints = upsert_endpoint e p.endpoints;
  subscriptions = subscribe_all e e.event_types (unsubscribe e.endpoint_id p.subscriptions);
}

abbrev is_older : EndpointChanged → EndpointRow → Bool
is_older e row = is_endpoint e.endpoint_id row && ltb row.version e.version

-- No row of the endpoint is older than the message once it is processed.
exists-update :
    (e : EndpointChanged) (rows : List EndpointRow)
    → exists (is_endpoint e.endpoint_id) (update (is_older e) (λ _. endpoint_row e) rows)
      ≡ exists (is_endpoint e.endpoint_id) rows
unfolding exists update
exists-update e [] = refl
exists-update e (x ∷ xs) = ground (arith, exists-update e xs, ==_refl e.endpoint_id)

update-again :
    (e : EndpointChanged) (rows : List EndpointRow)
    → update (is_older e) (λ _. endpoint_row e) (update (is_older e) (λ _. endpoint_row e) rows)
      ≡ update (is_older e) (λ _. endpoint_row e) rows
unfolding update
update-again e [] = refl
update-again e (x ∷ xs) = ground (arith, update-again e xs, ==_refl e.endpoint_id)

update-appended :
    (e : EndpointChanged) (rows : List EndpointRow)
    → exists (is_endpoint e.endpoint_id) rows ≡ false
    → update (is_older e) (λ _. endpoint_row e) (rows ++ endpoint_row e ∷ [])
      ≡ rows ++ endpoint_row e ∷ []
unfolding update exists
update-appended e [] h = ground arith
update-appended e (x ∷ xs) h = ground (arith, update-appended e xs, ==_refl e.endpoint_id)

exists-appended :
    (e : EndpointChanged) (rows : List EndpointRow)
    → exists (is_endpoint e.endpoint_id) (rows ++ endpoint_row e ∷ []) ≡ true
unfolding exists
exists-appended e [] = ground (arith, ==_refl e.endpoint_id)
exists-appended e (x ∷ xs) = ground (arith, exists-appended e xs)

upsert_endpoint-again :
    (e : EndpointChanged) (rows : List EndpointRow)
    → upsert_endpoint e (upsert_endpoint e rows) ≡ upsert_endpoint e rows
unfolding upsert_endpoint
upsert_endpoint-again e rows = elim (Bool-cases (exists (is_endpoint e.endpoint_id) rows)) [
  | inl there ↦ rw (there, exists-update e rows, there) (update-again e rows)
  | inr new ↦ rw (new, exists-appended e rows) (update-appended e rows new)
]

-- What unsubscribing leaves is not touched by the subscriptions of the endpoint.
unsubscribe-snoc :
    (id : ℕ) (rows : List SubscriptionRow) (row : SubscriptionRow)
    → row.endpoint_id ≡ id
    → unsubscribe id (rows ++ row ∷ []) ≡ unsubscribe id rows
unfolding unsubscribe select
unsubscribe-snoc id [] row h = ground arith
unsubscribe-snoc id (x ∷ xs) row h = ground (arith, unsubscribe-snoc id xs row)

unsubscribe-subscribe :
    (e : EndpointChanged) (a : Bytes) (rows : List SubscriptionRow)
    → unsubscribe e.endpoint_id (subscribe e a rows) ≡ unsubscribe e.endpoint_id rows
unfolding subscribe
unsubscribe-subscribe e a rows = elim (Bool-cases (exists (is_subscription e.endpoint_id a) rows)) [
  | inl there ↦ rw there refl
  | inr new ↦ rw new (unsubscribe-snoc e.endpoint_id rows _ refl)
]

unsubscribe-subscribe_all :
    (e : EndpointChanged) (types : List Bytes) (rows : List SubscriptionRow)
    → unsubscribe e.endpoint_id (subscribe_all e types rows) ≡ unsubscribe e.endpoint_id rows
unsubscribe-subscribe_all e [] rows = refl
unsubscribe-subscribe_all e (a ∷ types) rows =
    unsubscribe-subscribe_all e types (subscribe e a rows) ∙ unsubscribe-subscribe e a rows

unsubscribe-again :
    (id : ℕ) (rows : List SubscriptionRow)
    → unsubscribe id (unsubscribe id rows) ≡ unsubscribe id rows
unfolding unsubscribe select
unsubscribe-again id [] = refl
unsubscribe-again id (x ∷ xs) = ground (arith, unsubscribe-again id xs)

upserted-again : (e : EndpointChanged) (p : Projection) → upserted e (upserted e p) ≡ upserted e p
upserted-again e p =
    ap₂ (λ a b. record { endpoints = a; subscriptions = b }) (upsert_endpoint-again e p.endpoints)
      (ap (subscribe_all e e.event_types) (
        unsubscribe-subscribe_all e e.event_types (unsubscribe e.endpoint_id p.subscriptions)
        ∙ unsubscribe-again e.endpoint_id p.subscriptions))

abbrev Tables : List EndpointRow → List SubscriptionRow → Projection → Type 0
Tables rows subs p = (p.endpoints ≡ rows) × (p.subscriptions ≡ subs)

subscribe_loop-upserted :
    (e : EndpointChanged) (types : List Bytes) (rows : List EndpointRow)
    (subs : List SubscriptionRow)
    → Ensures
        (Tables rows subs)
        (for_each types (λ a.
          exec
            (Error.other "insert subscription")
            (λ p. record p { subscriptions = subscribe e a p.subscriptions })))
        (λ _. Tables rows (subscribe_all e types subs))
unfolding for_each
subscribe_loop-upserted e [] rows subs s h = h
subscribe_loop-upserted e (a ∷ types) rows subs s h =
    Ensures-then (Tables rows subs) (Tables rows (subscribe e a subs)) Q (exec _ _) _
      (Ensures-exec _ (Tables rows (subscribe e a subs)) _ _ (λ p k. (k.0, ap (subscribe e a) k.1)))
      (subscribe_loop-upserted e types rows (subscribe e a subs)) s h
  where
    Q : Unit {0} → Projection → Type 0
    Q _ = Tables rows (subscribe_all e (a ∷ types) subs)

upsert-upserted :
    (e : EndpointChanged) (p : Projection)
    → Ensures (λ q. q ≡ p) (upsert e) (λ _ q. q ≡ upserted e p)
unfolding upsert
upsert-upserted e p =
    Ensures-transaction (λ q. q ≡ p) Q _ _ _
      (Ensures-then _ P Q (exec _ _) _
        (Ensures-exec _ P _ _
          (λ q h. (ap (λ u. upsert_endpoint e u.endpoints) h, ap (λ u. u.subscriptions) h)))
        (Ensures-then P P' Q (exec _ _) _
          (Ensures-exec P P' _ _ (λ q h. (h.0, ap (unsubscribe e.endpoint_id) h.1)))
          (Ensures-weaken P' _ Q (for_each e.event_types _)
            (λ u q h. ap₂ (λ a b. record { endpoints = a; subscriptions = b }) h.0 h.1)
            (subscribe_loop-upserted e e.event_types (upsert_endpoint e p.endpoints)
              (unsubscribe e.endpoint_id p.subscriptions)))))
  where
    P : Projection → Type 0
    P = Tables (upsert_endpoint e p.endpoints) p.subscriptions

    P' : Projection → Type 0
    P' = Tables (upsert_endpoint e p.endpoints) (unsubscribe e.endpoint_id p.subscriptions)

    Q : Unit {0} → Projection → Type 0
    Q _ q = q ≡ upserted e p

-- A change message that is delivered once more, with no other in between, changes nothing: where the
-- handler succeeds on it, and later again on the tables that it left, both tables stay as they were.
pub redelivery_changes_nothing :
    {Value : Type 0} (decode : Value → Option EndpointChanged) (value : Value)
    (s s' t t' : Session Projection)
    → handle decode value s ≡ (ok tt, s')
    → t.db ≡ s'.db
    → handle decode value t ≡ (ok tt, t')
    → t'.db ≡ s'.db
unfolding handle
redelivery_changes_nothing decode value s s' t t' first same second = go (decode value) first second
  where
    go :
        (o : Option EndpointChanged)
        → handle_decoded o s ≡ (ok tt, s')
        → handle_decoded o t ≡ (ok tt, t')
        → t'.db ≡ s'.db
    go none f g = cc
    go (some e) f g =
        let before : s'.db ≡ upserted (copy e) s.db =
          Ensures-use (λ q. q ≡ s.db) (λ _ q. q ≡ upserted (copy e) s.db) _ s s' tt
            (upsert-upserted (copy e) s.db) refl f in
        let after : t'.db ≡ upserted (copy e) t.db =
          Ensures-use (λ q. q ≡ t.db) (λ _ q. q ≡ upserted (copy e) t.db) _ t t' tt
            (upsert-upserted (copy e) t.db) refl g in
        after ∙ ap (upserted (copy e)) (same ∙ before) ∙ upserted-again (copy e) s.db ∙ sym before
