-- ===== src/Delivery/Leases.antt =====
-- What ClaimBatch hands out: which rows, and for how long nobody else gets them.
use hookyard.Base.{
  ℕ, ◌+◌, ◌≤◌, ◌≡◌, refl, sym, ap, ◌∙◌, subst, ◌≢◌, Bool, true, false, not, ◌&&◌, some, List, [],
  ◌∷◌, if_rule, Bytes, if◌then◌else◌, map, All, All-map, All-zip, All-take, All-select,
  All-selected, All-order_by, All-update_to, select, arith,
}
use hookyard.Base.Session.{Session, Result, ok, err, call, exec, query}
use hookyard.Base.Ensures.{
  Ensures, Ensures-bind, Ensures-then, Ensures-call, Ensures-exec, Ensures-query, Ensures-pure,
  Ensures-transaction, Ensures-use, Post,
}
use hookyard.Delivery.Model.{in_progress, Delivery, Tables, Clock}
use hookyard.Delivery.Repository.{has_id}
use hookyard.Delivery.Claim.{
  due, claim_query, claim_order, claim_lease, leased, claimed, refuse_if_busy, claim_rows,
  claim_batch,
}

-- Every row of the id of one of `rows` is leased until `until`.
abbrev pub LeasedUntil : ℕ → List Delivery → Delivery → Type 0
LeasedUntil until rows x =
    All (λ d. d.id ≡ x.id → (x.status ≡ in_progress) × (x.lease_expires_at ≡ some until)) rows

abbrev Held : ℕ → List Delivery → Tables → Type 0
Held until rows t = All (LeasedUntil until rows) t.deliveries

pub refuse_if_busy-Ensures :
    (P : Tables → Type 0) (multiplex : Bool) → Ensures P (refuse_if_busy multiplex) (λ _. P)
refuse_if_busy-Ensures P true s h = h
refuse_if_busy-Ensures P false s h = tt

lease_holds :
    (c : Clock) (worker : Bytes) (d : Delivery) (done : List Delivery) (x : Delivery)
    → LeasedUntil (c.now + claim_lease) done x
    → LeasedUntil (c.now + claim_lease) (d ∷ done) (if has_id d.id x then leased c worker x else x)
lease_holds c worker d done x h =
    if_rule (LeasedUntil (c.now + claim_lease) (d ∷ done)) (has_id d.id x) (leased c worker x) x
      (λ hit. ((λ _. (refl, refl)), All-map _ _ done (λ _ _ _. (refl, refl)) h))
      (λ miss. ((λ e. absurd (ground arith)), h))

-- After the loop the rows leased before it and those that it was given are leased, and it returns
-- the rows with their new attempt counts.
claim_rows-Ensures :
    (multiplex : Bool) (c : Clock) (worker : Bytes) (rows done : List Delivery)
    → Ensures (Held (c.now + claim_lease) done) (claim_rows multiplex c worker rows) (λ ds t.
      (ds ≡ map (claimed c) rows)
      × Held (c.now + claim_lease) done t
      × Held (c.now + claim_lease) rows t)
unfolding claim_rows
claim_rows-Ensures multiplex c worker [] done s h =
    (refl, h, All-map _ _ s.db.deliveries (λ x _. tt) h)
claim_rows-Ensures multiplex c worker (d ∷ rest) done s h =
    Ensures-then P P Q (call _) _ (Ensures-call P _)
      (Ensures-then P P Q (refuse_if_busy multiplex) _ (refuse_if_busy-Ensures P multiplex) (
        Ensures-then P P' Q (exec _ _) _
          (Ensures-exec P P' _ _ (λ t.
            All-update_to _ _ (has_id d.id) (leased c worker) t.deliveries
              (lease_holds c worker d done)))
          (Ensures-bind P' _ Q (claim_rows multiplex c worker rest) _
            (claim_rows-Ensures multiplex c worker rest (d ∷ done))
            (λ ds. Ensures-pure _ Q (claimed c d ∷ ds) (collect ds)))))
      s h
  where
    u : ℕ
    u = c.now + claim_lease

    P : Tables → Type 0
    P = Held u done

    P' : Tables → Type 0
    P' = Held u (d ∷ done)

    Q : List Delivery → Tables → Type 0
    Q ds t = (ds ≡ map (claimed c) (d ∷ rest)) × Held u done t × Held u (d ∷ rest) t

    collect :
        (ds : List Delivery) (t : Tables)
        → (ds ≡ map (claimed c) rest) × Held u (d ∷ done) t × Held u rest t
        → Q (claimed c d ∷ ds) t
    collect ds t h = (
      ap (λ r. claimed c d ∷ r) h.0,
      All-map _ _ t.deliveries (λ x k. k.1) h.1,
      All-zip _ _ _ t.deliveries (λ x k l. (k.0, l)) h.1 h.2,
    )

-- What `claim_batch` yields: the rows that the query picks, now leased.
abbrev Claimed : ℕ → (ℕ → Bool) → Clock → List Delivery → List Delivery → Tables → Type 0
Claimed limit locked c before ds t =
    (ds ≡ map (claimed c) (claim_query locked limit c.db_now before))
    × Held (c.now + claim_lease) (claim_query locked limit c.db_now before) t

claim_batch-Ensures :
    (multiplex : Bool) (locked : ℕ → Bool) (c : Clock) (worker : Bytes) (limit lease : ℕ)
    (before : List Delivery)
    → Ensures
        (λ t. t.deliveries ≡ before)
        (claim_batch multiplex locked c worker limit lease)
        (Claimed limit locked c before)
unfolding claim_batch
claim_batch-Ensures multiplex locked c worker limit lease before =
    Ensures-transaction _ (Claimed limit locked c before) _ _ _ (
      Ensures-bind _ R (Claimed limit locked c before) (query _ _) _
        (Ensures-query _ R _ _ (λ t e. ap (claim_query locked limit c.db_now) e))
        (λ rows.
          Ensures-bind _ _ (Claimed limit locked c before) (claim_rows multiplex c worker rows) _
            (λ s h.
              widen rows h (claim_rows multiplex c worker rows s)
                (claim_rows-Ensures multiplex c worker rows [] s (All-trivial s.db.deliveries)))
            (λ ds.
              Ensures-then _ _ (Claimed limit locked c before) (call _) _ (Ensures-call _ _)
                (Ensures-pure _ (Claimed limit locked c before) ds (λ t h. h)))))
  where
    R : List Delivery → Tables → Type 0
    R rows t = rows ≡ claim_query locked limit c.db_now before

    All-trivial : (ds : List Delivery) → All (LeasedUntil (c.now + claim_lease) []) ds
    All-trivial [] = tt
    All-trivial (x ∷ xs) = (tt, All-trivial xs)

    widen :
        (rows : List Delivery)
        → rows ≡ claim_query locked limit c.db_now before
        → (r : Result (List Delivery) × Session Tables)
        → Post
            (λ ds t.
              (ds ≡ map (claimed c) rows)
              × Held (c.now + claim_lease) [] t
              × Held (c.now + claim_lease) rows t)
            r
        → Post (Claimed limit locked c before) r
    widen rows e (ok ds, s) h =
        (h.0 ∙ ap (map (claimed c)) e, subst (λ q. Held (c.now + claim_lease) q s.db) e h.2)
    widen rows e (err x, s) h = tt

-- A claim that succeeds returns, in the order of the query, the rows that are due and that nobody
-- else has locked, up to the limit, each with its attempt count raised and the time of the attempt
-- set, and every one of them is then in progress under a lease of thirty seconds in the table,
-- whatever lease the caller asks for.
pub claim_batch-leases :
    (multiplex : Bool) (locked : ℕ → Bool) (c : Clock) (worker : Bytes) (limit lease : ℕ)
    (s s' : Session Tables) (ds : List Delivery)
    → claim_batch multiplex locked c worker limit lease s ≡ (ok ds, s')
    → (ds ≡ map (claimed c) (claim_query locked limit c.db_now s.db.deliveries))
      × All
          (LeasedUntil (c.now + 30_000_000_000) (claim_query locked limit c.db_now s.db.deliveries))
          s'.db.deliveries
claim_batch-leases multiplex locked c worker limit lease s s' ds e =
    Ensures-use _ (Claimed limit locked c s.db.deliveries) _ s s' ds
      (claim_batch-Ensures multiplex locked c worker limit lease s.db.deliveries) refl e

All-of_map {κ} :
    (P : Delivery → Type κ) (f : Delivery → Delivery) (xs : List Delivery)
    → All (λ x. P (f x)) xs
    → All P (map f xs)
All-of_map P f [] h = tt
All-of_map P f (x ∷ xs) h = (h.0, All-of_map P f xs h.1)

lease_not_over :
    (until now : ℕ) (x : Delivery) (b : Bool)
    → now ≤ until
    → x.status ≡ in_progress
    → x.lease_expires_at ≡ some until
    → (due now x && b) ≡ true
    → ⊥
unfolding due
lease_not_over until now x b le p q h = ground arith

-- What a query picks while a lease on `rows` runs has none of their ids.
claim_query-avoids :
    (locked : ℕ → Bool) (limit until now : ℕ) (rows ds : List Delivery)
    → now ≤ until
    → All (LeasedUntil until rows) ds
    → All (λ x. All (λ d. d.id ≢ x.id) rows) (claim_query locked limit now ds)
unfolding claim_query
claim_query-avoids locked limit until now rows ds le held = All-take _ limit _ (
    All-order_by claim_order _ _
      (All-zip _ _ _ (select p ds) avoid (All-selected p ds) (All-select _ p ds held)))
  where
    p : Delivery → Bool
    p d = due now d && not (locked d.id)

    avoid : (x : Delivery) → p x ≡ true → LeasedUntil until rows x → All (λ d. d.id ≢ x.id) rows
    avoid x hit =
        All-map _ _ rows
          (λ d k e. lease_not_over until now x (not (locked x.id)) le (k e).0 (k e).1 hit)

-- Two claims in a row, by any workers, that both succeed hand out no delivery twice, unless the
-- thirty seconds of the first lease have passed when the second reads the table.
pub claims_disjoint :
    (multiplex : Bool) (locked locked' : ℕ → Bool) (c c' : Clock) (worker worker' : Bytes)
    (limit limit' lease lease' : ℕ) (s s' : Session Tables) (t' : Session Tables)
    (ds ds' : List Delivery)
    → claim_batch multiplex locked c worker limit lease s ≡ (ok ds, s')
    → claim_batch multiplex locked' c' worker' limit' lease' s' ≡ (ok ds', t')
    → c'.db_now ≤ c.now + 30_000_000_000
    → All (λ d'. All (λ d. d.id ≢ d'.id) ds) ds'
claims_disjoint multiplex locked locked' c c' worker worker' limit limit' lease lease' s s' t' ds
      ds' e e' le =
    let first = claim_batch-leases multiplex locked c worker limit lease s s' ds e in
    let second = claim_batch-leases multiplex locked' c' worker' limit' lease' s' t' ds' e' in
    subst (λ q. All (λ d'. All (λ d. d.id ≢ d'.id) ds) q) (sym second.0)
      (All-of_map _ (claimed c') _ (
        All-map _ _ _
          (λ x h.
            subst (λ q. All (λ d. d.id ≢ x.id) q) (sym first.0) (All-of_map _ (claimed c) _ h))
          (claim_query-avoids locked' limit' _ c'.db_now _ _ le first.1)))
