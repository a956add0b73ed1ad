-- ===== src/Scheduler/Loop.antt =====
-- delivery-service/internal/scheduler/scheduler.go: the loop of Run, its semaphore and its
-- goroutines, as a step relation.
use hookyard.Base.{
  ℕ, suc, ◌-◌, ◌*◌, ◌<◌, ◌≡◌, Bytes, bytes, Bool, List, [], ◌∷◌, ◌++◌, ltb, leb, if◌then◌else◌,
  length,
}
use hookyard.Base.Int.{ℤ, pos, negsuc}
use hookyard.Base.Session.{Session, Result, ok, err}
use hookyard.Delivery.Model.{Delivery, Tables, Clock}
use hookyard.Delivery.Claim.{claim_batch}
use hookyard.Delivery.Service.{deliver}
use hookyard.Delivery.Operations.{Environment}

pub record Scheduler : Type 0 where
  pub concurrency : ℕ
  pub batch_size : ℕ
  pub lease : ℕ

-- A setting that is not positive is replaced.
abbrev pub or_default : ℤ → ℕ → ℕ
or_default (pos (suc n)) default = suc n
or_default (pos _) default = default
or_default (negsuc _) default = default

-- New, on a machine with `cpus` processors.
unfoldable pub new : ℕ → ℤ → ℤ → ℕ → Scheduler
new cpus concurrency batch_size lease = record {
  concurrency = or_default concurrency (cpus * 4);
  batch_size = or_default batch_size (or_default concurrency (cpus * 4));
  lease = lease;
}

-- os.Hostname, which is empty when it fails.
abbrev pub worker_id : Bytes → Bytes
worker_id [] = bytes "delivery-worker"
worker_id (b ∷ bs) = b ∷ bs

-- `in_flight` holds the deliveries of the goroutines that have a slot of the semaphore, `to_start`
-- those that the inner loop still has to hand to one.
pub record State : Type 0 where
  pub tables : Tables
  pub in_flight : List Delivery
  pub to_start : List Delivery

unfoldable pub claim_limit : Scheduler → ℕ → ℕ
claim_limit sch available = if ltb available sch.batch_size then available else sch.batch_size

abbrev pub take_claimed : State → Result (List Delivery) × Session Tables → State
take_claimed st (ok ds, s) = record st { tables = s.db; to_start = ds }
take_claimed st (err e, s) = record st { tables = s.db }

-- A tick, up to the inner loop.
unfoldable pub tick : Scheduler → Bool → (ℕ → Bool) → Clock → Bytes → List Bool → State → State
unfolding claim_limit
tick sch multiplex locked c host faults st =
    if leb sch.concurrency (length st.in_flight)
    then st
    else take_claimed st (
        claim_batch multiplex locked c (worker_id host)
          (claim_limit sch (sch.concurrency - length st.in_flight)) sch.lease
          (record { db = st.tables; faults = faults }))

-- What Deliver leaves in the tables; its error is logged.
unfoldable pub delivered : Environment → ℕ → ℕ → Clock → List Bool → Delivery → Tables → Tables
delivered env latency random c faults d t =
    (deliver env.decrypt env.network latency random c d (record { db = t; faults = faults })).1.db

pub data Step (sch : Scheduler) (env : Environment) : State → State → Type 0 where
  -- The loop takes a tick when the inner loop is done.
  ticks :
      (locked : ℕ → Bool) (c : Clock) (host : Bytes) (faults : List Bool) (st : State)
      → st.to_start ≡ []
      → Step sch env st (tick sch env.multiplex locked c host faults st)
  -- `sem <- struct{}{}` goes through while the buffer has room, and the goroutine is started.
  starts :
      (d : Delivery) (rest : List Delivery) (st : State)
      → st.to_start ≡ d ∷ rest
      → length st.in_flight < sch.concurrency
      → Step sch env st (record st { in_flight = st.in_flight ++ d ∷ []; to_start = rest })
  -- A goroutine ends, whichever it is, and gives its slot back.
  finishes :
      (before after : List Delivery) (d : Delivery) (latency random : ℕ) (c : Clock)
      (faults : List Bool) (st : State)
      → st.in_flight ≡ before ++ d ∷ after
      → Step sch env st (record st {
        tables = delivered env latency random c faults d st.tables;
        in_flight = before ++ after;
      })

pub data Reachable (sch : Scheduler) (env : Environment) : State → Type 0 where
  begins : (t : Tables) → Reachable sch env (record { tables = t; in_flight = []; to_start = [] })
  continues : (st st' : State) → Reachable sch env st → Step sch env st st' → Reachable sch env st'
