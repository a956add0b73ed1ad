-- ===== src/Event/Idempotency.antt =====
-- The idempotency keys of events (event-service/internal/event/repository.go).
use hookyard.Base.{
  ℕ, ◌≡◌, sym, ap, ◌∙◌, subst, Bytes, bytes_eq_iff, none, some, List, [], ◌∷◌, ◌++◌, ==_refl, find,
  arith, find-append, find-hit, find-passes,
}
use hookyard.Base.Session.{Session, ok}
use hookyard.Event.Store.{
  Event, PublishRequest, IdempotencyRow, Tables, Notation, Draw, same_key, is_event, create_event,
}
use hookyard.Event.Acceptance.{Accepted, known, created, create_event-Accepted}

-- What is found under a key or an identifier is stored under it.
pub found_event :
    (tenant_id id : ℕ) (es : List Event) (e : Event)
    → find (is_event tenant_id id) es ≡ some e
    → e.id ≡ id
found_event tenant_id id es e f = ground (arith, find-passes _ es e f)

module _ (tenant_id : ℕ) (key : Bytes) where
  -- The key is stored, for the event `id`.
  Keyed : ℕ → Tables → Type 0
  Keyed id t =
      (row : IdempotencyRow) × (find (same_key tenant_id key) t.idempotency ≡ some row)
      × (row.event_id ≡ id)

  new_key_found :
      (id : ℕ) (rows : List IdempotencyRow)
      → find (same_key tenant_id key) rows ≡ none
      → find
          (same_key tenant_id key)
          (rows ++ record { tenant_id = tenant_id; idempotency_key = key; event_id = id } ∷ [])
        ≡ some (record { tenant_id = tenant_id; idempotency_key = key; event_id = id })
  new_key_found id rows h =
      find-append _ rows _ h
      ∙ find-hit (same_key tenant_id key) _ []
          (ground (arith, ==_refl tenant_id, bytes_eq_iff key key))

  Keyed-id :
      (n : Notation) (draw : Draw) (req : PublishRequest) (id : ℕ) (before : Tables) (e : Event)
      (after : Tables)
      → req.idempotency_key ≡ key
      → Keyed id before
      → Accepted n draw req tenant_id before e after
      → (e.id ≡ id) × (after ≡ before)
  unfolding Keyed
  Keyed-id n draw req id before e after q k (known row f g same) =
      let both : some row ≡ some k.0 =
        sym f ∙ ap (λ x. find (same_key tenant_id x) before.idempotency) q ∙ k.1 in
      let one : row ≡ k.0 = cc in
      (found_event tenant_id row.event_id before.events e g ∙ ap (λ r. r.event_id) one ∙ k.2, same)
  Keyed-id n draw req id before e after q k (created row f _ _ _ _ _ _) =
      let clash : none ≡ some k.0 =
        sym f ∙ ap (λ x. find (same_key tenant_id x) before.idempotency) q ∙ k.1 in
      cc

accepted-Keyed :
    (n : Notation) (draw : Draw) (req : PublishRequest) (tenant_id : ℕ) (before : Tables)
    (e : Event) (after : Tables)
    → Accepted n draw req tenant_id before e after
    → Keyed tenant_id req.idempotency_key e.id after
unfolding Keyed
accepted-Keyed n draw req tenant_id before e after (known row k f same) =
    (row, rw same k, sym (found_event tenant_id row.event_id before.events e f))
accepted-Keyed n draw req tenant_id before e after (created row none_yet _ is_new is_row es ks os) =
    (
      _,
      ap (find (same_key tenant_id req.idempotency_key)) ks
          ∙ new_key_found tenant_id req.idempotency_key draw.event_id before.idempotency none_yet,
      sym (ap (λ x. x.id) is_new),
    )

-- After an event is accepted, any request of the tenant with the same idempotency key, whatever else
-- it asks for and whenever it is accepted next, returns the same event and changes no table.
pub create_event-idempotent :
    (n m : Notation) (draw draw' : Draw) (req req' : PublishRequest) (tenant_id : ℕ)
    (s s' t t' : Session Tables) (e e' : Event)
    → create_event n draw req tenant_id s ≡ (ok e, s')
    → req'.idempotency_key ≡ req.idempotency_key
    → t.db ≡ s'.db
    → create_event m draw' req' tenant_id t ≡ (ok e', t')
    → (e'.id ≡ e.id) × (t'.db ≡ s'.db)
create_event-idempotent n m draw draw' req req' tenant_id s s' t t' e e' first same_keys same_db
      again =
    let first_run : Keyed tenant_id req.idempotency_key e.id s'.db =
      accepted-Keyed n draw req tenant_id s.db e s'.db
        (create_event-Accepted n draw req tenant_id s s' e first) in
    let second_run : (e'.id ≡ e.id) × (t'.db ≡ t.db) =
      Keyed-id tenant_id req.idempotency_key m draw' req' e.id t.db e' t'.db same_keys
        (subst (Keyed tenant_id req.idempotency_key e.id) (sym same_db) first_run)
        (create_event-Accepted m draw' req' tenant_id t t' e' again) in
    (second_run.0, second_run.1 ∙ same_db)
