-- ===== src/Delivery/Claims.antt =====
-- Consistent rows of deliveries, and what ClaimBatch does to them
-- (delivery-service/internal/delivery/repository.go).
use hookyard.Base.{
  Bytes, ℕ, ◌≡◌, refl, sym, inl, inr, Bool, true, false, not, ◌&&◌, ◌||◌, List, [], ◌∷◌, ◌==◌,
  ==_iff, Bool-cases, if◌then◌else◌, is_some, All, All-map, All-update_to, All-take, All-order_by,
  take, select, order_by, arith,
}
use hookyard.Base.Session.{call, exec, query}
use hookyard.Base.Keeps.{
  Keeps, Keeps-bind, Keeps-then, Keeps-call, Keeps-pure, Keeps-query, Keeps-exec, Keeps-transaction,
  Turns, Turns-bind, Turns-exec, Turns-query, Turns-transaction,
}
use hookyard.Delivery.Model.{
  Status, pending, Delivery, Tables, Clock, is_waiting, is_in_progress, is_final,
}
use hookyard.Delivery.Repository.{has_id}
use hookyard.Delivery.Claim.{
  claimed, due, claim_query, claim_order, leased, refuse_if_busy, claim_rows, claim_batch,
}
use hookyard.Delivery.Rows.{Distinct, Distinct-update, Covered, Covered-select}

abbrev pub is_pending : Status → Bool
is_pending pending = true
is_pending _ = false

pub record IsConsistent (d : Delivery) : Type 0 where
  pub leased : is_in_progress d.status ≡ is_some d.lease_expires_at
  pub owned : is_in_progress d.status ≡ is_some d.lease_owner
  pub completed : is_final d.status ≡ is_some d.completed_at
  pub untried : is_pending d.status ≡ (d.attempt_count == 0)
  pub tried : is_some d.last_attempt_at ≡ not (d.attempt_count == 0)

-- The ids are distinct and every row is consistent.
pub record IsSound (t : Tables) : Type 0 where
  pub distinct : Distinct t.deliveries
  pub consistent : All IsConsistent t.deliveries

-- The loop of ClaimBatch. `Ready rows` is what holds of every row while `rows` are to be leased.
abbrev Claimable : Delivery → Type 0
Claimable x = (is_waiting x.status || is_in_progress x.status) ≡ true

abbrev Ready : List Delivery → Tables → Type 0
Ready rows t = All (λ x. IsConsistent x × All (λ d. d.id ≡ x.id → Claimable x) rows) t.deliveries

abbrev Consistent : Tables → Type 0
Consistent t = All IsConsistent t.deliveries

Ready-Consistent : (rows : List Delivery) (t : Tables) → Ready rows t → Consistent t
Ready-Consistent rows t = All-map _ IsConsistent t.deliveries (λ x h. h.0)

leased-IsConsistent :
    (c : Clock) (worker : Bytes) (x : Delivery)
    → Claimable x
    → IsConsistent x
    → IsConsistent (leased c worker x)
leased-IsConsistent c worker x p h = ground arith

lease_step :
    (c : Clock) (worker : Bytes) (d : Delivery) (rest : List Delivery) (x : Delivery)
    → IsConsistent x × All (λ d'. d'.id ≡ x.id → Claimable x) (d ∷ rest)
    → let y = if has_id d.id x then leased c worker x else x in
      IsConsistent y × All (λ d'. d'.id ≡ y.id → Claimable y) rest
lease_step c worker d rest x h = elim (Bool-cases (x.id == d.id)) [
  | inl hit ↦ rw hit (
    leased-IsConsistent c worker x (h.1.0 (sym ((==_iff x.id d.id).0 hit))) h.0,
    All-map _ _ rest (λ d' _ _. refl) h.1.1,
  )
  | inr miss ↦ rw miss (h.0, h.1.1)
]

pub refuse_if_busy-Keeps :
    (P : Tables → Type 0) (multiplex : Bool) → Keeps P (refuse_if_busy multiplex)
refuse_if_busy-Keeps P true s h = h
refuse_if_busy-Keeps P false s h = h

claim_rows-Turns :
    (multiplex : Bool) (c : Clock) (worker : Bytes) (rows : List Delivery)
    → Turns (Ready rows) Consistent (claim_rows multiplex c worker rows)
unfolding claim_rows
claim_rows-Turns multiplex c worker [] s h = Ready-Consistent [] s.db h
claim_rows-Turns multiplex c worker (d ∷ rest) s h =
    Turns-bind (Ready (d ∷ rest)) (Ready (d ∷ rest)) Consistent (call _) _
      (Keeps-call (Ready (d ∷ rest)) _) (Ready-Consistent (d ∷ rest))
      (λ _.
        Turns-bind (Ready (d ∷ rest)) (Ready (d ∷ rest)) Consistent (refuse_if_busy multiplex) _
          (refuse_if_busy-Keeps (Ready (d ∷ rest)) multiplex) (Ready-Consistent (d ∷ rest))
          (λ _.
            Turns-exec (Ready (d ∷ rest)) (Ready rest) Consistent _ _ _
              (Ready-Consistent (d ∷ rest))
              (λ t.
                All-update_to _ _ (has_id d.id) (leased c worker) t.deliveries
                  (lease_step c worker d rest))
              (Turns-bind (Ready rest) Consistent Consistent (claim_rows multiplex c worker rest) _
                (claim_rows-Turns multiplex c worker rest) (λ t h. h)
                (λ ds. Keeps-pure Consistent (claimed c d ∷ ds)))))
      s h

Claimable-due :
    (now : ℕ) (locked : ℕ → Bool) (x : Delivery)
    → (due now x && not (locked x.id)) ≡ true
    → Claimable x
unfolding due
Claimable-due now locked x h = ground arith

claim_query-Ready :
    (locked : ℕ → Bool) (limit now : ℕ) (t : Tables)
    → IsSound t
    → Ready (claim_query locked limit now t.deliveries) t
unfolding claim_query
claim_query-Ready locked limit now t s =
    ready t.deliveries s.consistent (Covered-select p t.deliveries s.distinct)
  where
    p : Delivery → Bool
    p d = due now d && not (locked d.id)

    rows : List Delivery
    rows = select p t.deliveries

    cover :
        (x : Delivery)
        → All (λ d. d.id ≡ x.id → p x ≡ true) rows
        → All (λ d. d.id ≡ x.id → Claimable x) rows
    cover x = All-map _ _ rows (λ d h e. Claimable-due now locked x (h e))

    ready :
        (ds : List Delivery)
        → All IsConsistent ds
        → Covered (λ x. p x ≡ true) rows ds
        → All
            (λ x.
              IsConsistent x
              × All (λ d. d.id ≡ x.id → Claimable x) (take limit (order_by claim_order rows)))
            ds
    ready [] h k = tt
    ready (x ∷ xs) h k = (
      (h.0, All-take _ limit _ (All-order_by claim_order _ rows (cover x k.0))),
      ready xs h.1 k.1,
    )

claim_batch-Consistent :
    (multiplex : Bool) (locked : ℕ → Bool) (c : Clock) (worker : Bytes) (limit lease : ℕ)
    → Turns IsSound Consistent (claim_batch multiplex locked c worker limit lease)
unfolding claim_batch
claim_batch-Consistent multiplex locked c worker limit lease =
    Turns-transaction IsSound Consistent _ _ _ (λ t s. s.consistent)
      (Turns-query IsSound Consistent Ready _ (λ t. claim_query locked limit c.db_now t.deliveries)
        _ (λ t s. s.consistent) (claim_query-Ready locked limit c.db_now)
        (λ rows.
          Turns-bind (Ready rows) Consistent Consistent (claim_rows multiplex c worker rows) _
            (claim_rows-Turns multiplex c worker rows) (λ t h. h)
            (λ ds.
              Keeps-then Consistent (call _) _ (Keeps-call Consistent _)
                (Keeps-pure Consistent ds))))

abbrev Separate : Tables → Type 0
Separate t = Distinct t.deliveries

claim_rows-Separate :
    (multiplex : Bool) (c : Clock) (worker : Bytes) (rows : List Delivery)
    → Keeps Separate (claim_rows multiplex c worker rows)
unfolding claim_rows
claim_rows-Separate multiplex c worker [] s h = h
claim_rows-Separate multiplex c worker (d ∷ rest) s h =
    Keeps-then Separate (call _) _ (Keeps-call Separate _)
      (Keeps-then Separate (refuse_if_busy multiplex) _ (refuse_if_busy-Keeps Separate multiplex) (
        Keeps-then Separate (exec _ _) _
          (Keeps-exec Separate _ _
            (λ t. Distinct-update (has_id d.id) (leased c worker) (λ _. refl) t.deliveries))
          (Keeps-bind Separate (claim_rows multiplex c worker rest) _
            (claim_rows-Separate multiplex c worker rest)
            (λ ds. Keeps-pure Separate (claimed c d ∷ ds)))))
      s h

pub claim_batch-IsSound :
    (multiplex : Bool) (locked : ℕ → Bool) (c : Clock) (worker : Bytes) (limit lease : ℕ)
    → Keeps IsSound (claim_batch multiplex locked c worker limit lease)
unfolding claim_batch
claim_batch-IsSound multiplex locked c worker limit lease s h = record {
  distinct = claim_batch-Separate s h.distinct;
  consistent = claim_batch-Consistent multiplex locked c worker limit lease s h;
}
  where
    claim_batch-Separate : Keeps Separate (claim_batch multiplex locked c worker limit lease)
    claim_batch-Separate = Keeps-transaction Separate _ _ _ (
        Keeps-bind Separate (query _ (λ t. claim_query locked limit c.db_now t.deliveries)) _
          (Keeps-query Separate _ _)
          (λ rows.
            Keeps-bind Separate (claim_rows multiplex c worker rows) _
              (claim_rows-Separate multiplex c worker rows)
              (λ ds.
                Keeps-then Separate (call _) _ (Keeps-call Separate _) (Keeps-pure Separate ds))))
