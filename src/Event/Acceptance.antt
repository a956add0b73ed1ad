-- ===== src/Event/Acceptance.antt =====
-- What accepting an event does (event-service/internal/event/repository.go).
use hookyard.Base.{
  is_some, ◌≢◌, Bytes, ◌∙◌, ℕ, ◌≡◌, refl, sym, ap, subst, Bool, true, false, Option, none, some,
  List, [], ◌∷◌, ◌++◌, ◌==◌, exists, if◌then◌else◌, accepted, find,
}
use mathlib.Core.Option.{map as map_option}
use hookyard.Base.Session.{Session, M, Error, ok, query, attempt, call, throw}
use hookyard.Base.Ensures.{
  Ensures, Ensures-bind, Ensures-then, Ensures-query, Ensures-attempt, Ensures-pure, Ensures-scoped,
  Ensures-call, Ensures-use, Ensures-weaken,
}
use hookyard.Event.Store.{
  Event, PublishRequest, IdempotencyRow, OutboxRow, Tables, Notation, Draw, is_invalid, new_event,
  nullable_json, nullable_jsonb, event_row, add_event, same_key, is_event, insert_event, insert_key,
  outbox_row, insert_outbox, or_missing, get_event, insert_all, known_or_new, create_event,
}

-- The row that a new event gets, column by column: the payload, the metadata and the time as
-- PostgreSQL keeps them.
pub record IsRow (n : Notation) (draw : Draw) (req : PublishRequest) (tenant_id : ℕ) (row : Event)
    : Type 0 where
  pub id : row.id ≡ draw.event_id
  pub owner : row.tenant_id ≡ tenant_id
  pub type : row.type ≡ req.type
  pub payload : n.jsonb req.content ≡ some row.payload
  pub source : row.source ≡ req.source
  pub untimed : req.occurred_at ≡ none → row.occurred_at ≡ none
  pub timed : (t : ℕ) → req.occurred_at ≡ some t → row.occurred_at ≡ some (n.timestamptz t)
  pub no_metadata : req.metadata ≡ [] → row.metadata ≡ none
  pub metadata :
      req.metadata ≢ [] → (n.jsonb req.metadata ≡ row.metadata) × (is_some row.metadata ≡ true)
  pub made : row.created_at ≡ draw.db_now

-- The two ways in which an event is accepted.
pub data Accepted (n : Notation) (draw : Draw) (req : PublishRequest) (tenant_id : ℕ)
    (before : Tables) (e : Event) (after : Tables) : Type 0 where
  -- The key is known: the event that it stands for is returned, and nothing is written.
  known :
      (row : IdempotencyRow)
      → find (same_key tenant_id req.idempotency_key) before.idempotency ≡ some row
      → find (is_event tenant_id row.event_id) before.events ≡ some e
      → after ≡ before
      → Accepted n draw req tenant_id before e after
  -- The key is new: the event, its key and its outbox row are written, one of each.
  created :
      (row : Event)
      → find (same_key tenant_id req.idempotency_key) before.idempotency ≡ none
      → exists (λ x. x.id == draw.event_id) before.events ≡ false
      → e ≡ new_event draw req tenant_id
      → IsRow n draw req tenant_id row
      → after.events ≡ before.events ++ row ∷ []
      → after.idempotency
        ≡ before.idempotency
          ++ record {
            tenant_id = tenant_id;
            idempotency_key = req.idempotency_key;
            event_id = draw.event_id;
          }
            ∷ []
      → after.outbox ≡ before.outbox ++ outbox_row n draw (new_event draw req tenant_id) ∷ []
      → Accepted n draw req tenant_id before e after

-- What a nullable JSONB column holds.
kept_json :
    (n : Notation) (text : Bytes) (m : Option Bytes)
    → nullable_jsonb n (nullable_json text) ≡ some m
    → (text ≡ [] → m ≡ none) × (text ≢ [] → (n.jsonb text ≡ m) × (is_some m ≡ true))
kept_json n [] m e = ((λ q. cc), (λ apart. absurd (apart refl)))
kept_json n (b ∷ bs) m e = ((λ q. cc), (λ apart. taken (n.jsonb (b ∷ bs)) refl e))
  where
    taken :
        (o : Option Bytes)
        → n.jsonb (b ∷ bs) ≡ o
        → map_option (λ j. some j) o ≡ some m
        → (n.jsonb (b ∷ bs) ≡ m) × (is_some m ≡ true)
    taken none q e = cc
    taken (some j) q e =
        let same : some j ≡ m = cc in (q ∙ same, subst (λ x. is_some x ≡ true) same refl)

-- What inserting a new event adds, where it succeeds.
insert_event-IsRow :
    (n : Notation) (draw : Draw) (req : PublishRequest) (tenant_id : ℕ) (t t' : Tables)
    → insert_event n draw (new_event draw req tenant_id) t ≡ some t'
    → (row : Event) × IsRow n draw req tenant_id row
      × (exists (λ x. x.id == draw.event_id) t.events ≡ false)
      × (record t { events = t.events ++ row ∷ [] } ≡ t')
unfolding insert_event
insert_event-IsRow n draw req tenant_id t t' q =
    added (exists (λ x. x.id == draw.event_id) t.events) (n.jsonb req.content)
      (nullable_jsonb n (nullable_json req.metadata)) refl refl refl q
  where
    new : Event
    new = new_event draw req tenant_id

    added :
        (taken : Bool) (o : Option Bytes) (m : Option (Option Bytes))
        → exists (λ x. x.id == draw.event_id) t.events ≡ taken
        → n.jsonb req.content ≡ o
        → nullable_jsonb n (nullable_json req.metadata) ≡ m
        → (if taken then none else add_event t (event_row n draw new o m)) ≡ some t'
        → (row : Event) × IsRow n draw req tenant_id row
          × (exists (λ x. x.id == draw.event_id) t.events ≡ false)
          × (record t { events = t.events ++ row ∷ [] } ≡ t')
    added true o m e p w q = cc
    added false none m e p w q = cc
    added false (some payload) none e p w q = cc
    added false (some payload) (some metadata) e p w q = (
      _,
      record {
        id = refl;
        owner = refl;
        type = refl;
        payload = p;
        source = refl;
        untimed = λ r. ap (map_option n.timestamptz) r;
        timed = λ at r. ap (map_option n.timestamptz) r;
        no_metadata = (kept_json n req.metadata metadata w).0;
        metadata = (kept_json n req.metadata metadata w).1;
        made = refl;
      },
      e,
      cc,
    )

get_event-Ensures :
    (tenant_id id : ℕ) (before : Tables)
    → Ensures
        (λ t. t ≡ before)
        (get_event tenant_id id)
        (λ e t. (find (is_event tenant_id id) before.events ≡ some e) × (t ≡ before))
unfolding get_event
get_event-Ensures tenant_id id before =
    Ensures-bind P R Q (query _ _) _
      (Ensures-query P R _ _ (λ t e. (ap (λ u. find (is_event tenant_id id) u.events) e, e))) found
  where
    P : Tables → Type 0
    P t = t ≡ before

    R : Option Event → Tables → Type 0
    R o t = (o ≡ find (is_event tenant_id id) before.events) × (t ≡ before)

    Q : Event → Tables → Type 0
    Q e t = (find (is_event tenant_id id) before.events ≡ some e) × (t ≡ before)

    found : (o : Option Event) → Ensures (R o) (or_missing o) Q
    found none s h = tt
    found (some e) s h = (sym h.0, h.1)

module _ (n : Notation) (draw : Draw) (req : PublishRequest) (tenant_id : ℕ) (before : Tables) where
  abbrev NewKey : Type 0
  NewKey = find (same_key tenant_id req.idempotency_key) before.idempotency ≡ none

  abbrev NewId : Type 0
  NewId = exists (λ x. x.id == draw.event_id) before.events ≡ false

  -- The tables after one, two and three of the inserts.
  With : List IdempotencyRow → List OutboxRow → Tables → Type 0
  With ks os t =
      (row : Event) × IsRow n draw req tenant_id row
      × (t.events ≡ before.events ++ row ∷ [])
      × (t.idempotency ≡ ks)
      × (t.outbox ≡ os)
      × NewKey
      × NewId

  event_added :
      (t t' : Tables)
      → insert_event n draw (new_event draw req tenant_id) t ≡ some t'
      → t ≡ before
      → NewKey
      → With before.idempotency before.outbox t'
  unfolding With
  event_added t t' q e k =
      let (row, is_row, free, new) = insert_event-IsRow n draw req tenant_id t t' q in
      (
        row,
        is_row,
        ap (λ u. u.events) (sym new) ∙ ap (λ u. u.events ++ row ∷ []) e,
        ap (λ u. u.idempotency) (sym new) ∙ ap (λ u. u.idempotency) e,
        ap (λ u. u.outbox) (sym new) ∙ ap (λ u. u.outbox) e,
        k,
        subst (λ u. exists (λ x. x.id == draw.event_id) u.events ≡ false) e free,
      )

  insert_all-Ensures :
      Ensures
        (λ t. (t ≡ before) × NewKey)
        (insert_all n draw req tenant_id)
        (Accepted n draw req tenant_id before)
  unfolding insert_all With insert_key insert_outbox
  insert_all-Ensures =
      Ensures-then _ (With before.idempotency before.outbox) Q (attempt _ _) _
        (Ensures-attempt _ (With before.idempotency before.outbox) _ _
          (λ t t' q h. event_added t t' q h.0 h.1))
        (Ensures-then _ (With ks before.outbox) Q (attempt _ _) _
          (Ensures-attempt _ (With ks before.outbox) _ _ (λ t t' q h.
            subst (With ks before.outbox) (accepted _ _ t' q)
              (h.0, h.1, h.2, ap (λ u. u ++ key ∷ []) h.3, h.4, h.5, h.6)))
          (Ensures-then _ (With ks os) Q (attempt _ _) _
            (Ensures-attempt _ (With ks os) _ _ (λ t t' q h.
              subst (With ks os) (accepted _ _ t' q)
                (h.0, h.1, h.2, h.3, ap (λ u. u ++ row ∷ []) h.4, h.5, h.6)))
            (Ensures-then _ (With ks os) Q (call _) _ (Ensures-call (With ks os) _) (
              Ensures-pure (With ks os) Q (new_event draw req tenant_id)
                (λ t h. created h.0 h.5 h.6 refl h.1 h.2 h.3 h.4)))))
    where
      Q : Event → Tables → Type 0
      Q = Accepted n draw req tenant_id before

      key : IdempotencyRow
      key = record {
        tenant_id = tenant_id;
        idempotency_key = req.idempotency_key;
        event_id = draw.event_id;
      }

      row : OutboxRow
      row = outbox_row n draw (new_event draw req tenant_id)

      ks : List IdempotencyRow
      ks = before.idempotency ++ key ∷ []

      os : List OutboxRow
      os = before.outbox ++ row ∷ []

  create_event-Ensures :
      Ensures
        (λ t. t ≡ before)
        (create_event n draw req tenant_id)
        (Accepted n draw req tenant_id before)
  unfolding create_event
  create_event-Ensures = guarded (is_invalid req) _ _ (
      Ensures-scoped P Q _ _ (
        Ensures-bind P R Q (query _ _) (known_or_new n draw req tenant_id)
          (Ensures-query P R _ _ (λ t e.
            (e, ap (λ u. find (same_key tenant_id req.idempotency_key) u.idempotency) (sym e))))
          branch))
    where
      P : Tables → Type 0
      P t = t ≡ before

      Q : Event → Tables → Type 0
      Q = Accepted n draw req tenant_id before

      R : Option IdempotencyRow → Tables → Type 0
      R o t = (t ≡ before) × (find (same_key tenant_id req.idempotency_key) before.idempotency ≡ o)

      branch : (o : Option IdempotencyRow) → Ensures (R o) (known_or_new n draw req tenant_id o) Q
      branch none s h = insert_all-Ensures s h
      branch (some row) s h =
          Ensures-weaken P
            (λ e t. (find (is_event tenant_id row.event_id) before.events ≡ some e) × (t ≡ before))
            Q (get_event tenant_id row.event_id) (λ e t k. known row h.1 k.0 k.1)
            (get_event-Ensures tenant_id row.event_id before) s h.0

      guarded :
          (b : Bool) (e : Error) (m : M Tables Event)
          → Ensures P m Q
          → Ensures P (if b then throw e else m) Q
      guarded true e m em s h = tt
      guarded false e m em s h = em s h

-- When an event is accepted, either its idempotency key was known, the event stored under that key
-- is returned and the tables are unchanged; or the key was new, and exactly the event, under an id
-- that none had and with what the columns keep of the request, its key and its unpublished outbox row
-- are added.
pub create_event-Accepted :
    (n : Notation) (draw : Draw) (req : PublishRequest) (tenant_id : ℕ) (s s' : Session Tables)
    (e : Event)
    → create_event n draw req tenant_id s ≡ (ok e, s')
    → Accepted n draw req tenant_id s.db e s'.db
create_event-Accepted n draw req tenant_id s s' e run =
    Ensures-use _ _ (create_event n draw req tenant_id) s s' e
      (create_event-Ensures n draw req tenant_id s.db) refl run
