-- ===== src/Scheduler/Slots.antt =====
-- The slots of the scheduler (delivery-service/internal/scheduler/scheduler.go).
use hookyard.Base.{
  ℕ, zero, suc, ◌+◌, ◌-◌, ◌*◌, if◌then◌else◌, ◌≤◌, ◌<◌, ◌≡◌, refl, ap, ◌∙◌, Bytes, Bool, List, [],
  ◌∷◌, ◌≢◌, map, length, length-append, length-take-le, if_rule, arith, ltb, leb,
}
use hookyard.Base.Int.{ℤ, pos, negsuc}
use hookyard.Base.Session.{Session, Result, ok, err}
use hookyard.Delivery.Model.{Delivery, Tables, Clock}
use hookyard.Delivery.Claim.{claimed, claim_query, claim_batch}
use hookyard.Delivery.Leases.{claim_batch-leases}
use hookyard.Delivery.Operations.{Environment}
use hookyard.Scheduler.Loop.{
  Scheduler, or_default, new, worker_id, State, claim_limit, take_claimed, tick, Step, ticks,
  starts, finishes, Reachable, begins, continues,
}

length-map : (f : Delivery → Delivery) (xs : List Delivery) → length (map f xs) ≡ length xs
length-map f [] = refl
length-map f (x ∷ xs) = ap suc (length-map f xs)

length-claim_query :
    (locked : ℕ → Bool) (limit now : ℕ) (ds : List Delivery)
    → length (claim_query locked limit now ds) ≤ limit
unfolding claim_query
length-claim_query locked limit now ds = length-take-le limit _

-- A claim returns at most as many rows as it asks for.
length-claim_batch :
    (multiplex : Bool) (locked : ℕ → Bool) (c : Clock) (worker : Bytes) (limit lease : ℕ)
    (s s' : Session Tables) (ds : List Delivery)
    → claim_batch multiplex locked c worker limit lease s ≡ (ok ds, s')
    → length ds ≤ limit
length-claim_batch multiplex locked c worker limit lease s s' ds e =
    let rows = claim_query locked limit c.db_now s.db.deliveries in
    let one : length ds ≡ length rows =
      ap length (claim_batch-leases multiplex locked c worker limit lease s s' ds e).0
      ∙ length-map (claimed c) rows in
    omega (arith, one, length-claim_query locked limit c.db_now s.db.deliveries)

claim_limit-le : (sch : Scheduler) (available : ℕ) → claim_limit sch available ≤ available
unfolding claim_limit
claim_limit-le sch available = ground arith

abbrev pub Bounded : Scheduler → State → Type 0
Bounded sch st = length st.in_flight + length st.to_start ≤ sch.concurrency

module _ (sch : Scheduler) (env : Environment) where
  take_claimed-Bounded :
      (st : State) (r : Result (List Delivery) × Session Tables)
      → ((ds : List Delivery) (s : Session Tables)
          → r ≡ (ok ds, s)
          → length st.in_flight + length ds ≤ sch.concurrency)
      → Bounded sch st
      → Bounded sch (take_claimed st r)
  take_claimed-Bounded st (ok ds, s) fits h = fits ds s refl
  take_claimed-Bounded st (err e, s) fits h = h

  tick-Bounded :
      (locked : ℕ → Bool) (c : Clock) (host : Bytes) (faults : List Bool) (st : State)
      → Bounded sch st
      → Bounded sch (tick sch env.multiplex locked c host faults st)
  unfolding tick
  tick-Bounded locked c host faults st h =
      if_rule (Bounded sch) (leb sch.concurrency (length st.in_flight)) _ _ (λ full. h)
        (λ free.
          take_claimed-Bounded st _
            (λ ds s e.
              let some_room : length st.in_flight < sch.concurrency = ground arith in
              let few : length ds ≤ sch.concurrency - length st.in_flight = omega (
                arith,
                length-claim_batch env.multiplex locked c (worker_id host) _ sch.lease _ s ds e,
                claim_limit-le sch (sch.concurrency - length st.in_flight),
              ) in
              omega arith)
            h)

  Step-Bounded : (st st' : State) → Step sch env st st' → Bounded sch st → Bounded sch st'
  Step-Bounded _ _ (ticks locked c host faults st e) h = tick-Bounded locked c host faults st h
  Step-Bounded _ _ (starts d rest st e lt) h =
      omega (arith, ap length e, length-append st.in_flight (d ∷ []))
  Step-Bounded _ _ (finishes before after d latency random c faults st e) h =
      omega (arith, ap length e, length-append before (d ∷ after), length-append before after)

  Reachable-Bounded : (st : State) → Reachable sch env st → Bounded sch st
  Reachable-Bounded _ (begins t) = omega arith
  Reachable-Bounded _ (continues st st' r step) = Step-Bounded st st' step (Reachable-Bounded st r)

  room :
      (st : State) (ds : List Delivery)
      → st.to_start ≡ ds
      → ds ≢ []
      → Bounded sch st
      → length st.in_flight < sch.concurrency
  room st [] e some_left h = absurd (some_left refl)
  room st (d ∷ rest) e some_left h = omega (arith, ap length e)

-- However its workers and ticks interleave, and whatever fails, the scheduler has never more
-- deliveries in hand, started or not, than `concurrency`; and while it has one to start, a slot is
-- free, so that the send to the semaphore never blocks the loop.
pub slots_suffice :
    (sch : Scheduler) (env : Environment) (st : State)
    → Reachable sch env st
    → Bounded sch st × (st.to_start ≢ [] → length st.in_flight < sch.concurrency)
slots_suffice sch env st r = (
  Reachable-Bounded sch env st r,
  (λ some_left. room sch env st st.to_start refl some_left (Reachable-Bounded sch env st r)),
)

positive : (i : ℤ) (default : ℕ) → 0 < default → 0 < or_default i default
positive (pos zero) default h = h
positive (pos (suc n)) default h = omega arith
positive (negsuc n) default h = h

smaller : (a b : ℕ) → 0 < a → 0 < b → 0 < (if ltb a b then a else b)
smaller a b h k = ground arith

-- Whatever the settings, on a machine with a processor the scheduler has a slot, and an idle tick
-- asks for at least one delivery.
pub new-IsLive :
    (cpus : ℕ) (concurrency batch_size : ℤ) (lease : ℕ)
    → 0 < cpus
    → (0 < (new cpus concurrency batch_size lease).concurrency)
      × (0
          < claim_limit
              (new cpus concurrency batch_size lease)
              (new cpus concurrency batch_size lease).concurrency)
unfolding new claim_limit
new-IsLive cpus concurrency batch_size lease some_cpu =
    let slots : 0 < or_default concurrency (cpus * 4) = positive concurrency _ (omega arith) in
    (slots, smaller _ _ slots (positive batch_size _ slots))
