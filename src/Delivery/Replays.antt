-- ===== src/Delivery/Replays.antt =====
-- Replaying a delivery: Replay of delivery-service/internal/delivery/service.go with Get and
-- CreateReplay of repository.go.
use hookyard.Base.{
  ℕ, ◌≡◌, refl, sym, ap, subst, ◌≢◌, Bool, true, false, ◌&&◌, Option, none, some, List, [], ◌∷◌,
  ◌++◌, ◌==◌, if◌then◌else◌, find, exists, arith,
}
use hookyard.Base.Session.{Session, Error, ok, query, attempt, throw}
use hookyard.Base.Ensures.{
  Ensures, Ensures-bind, Ensures-then, Ensures-query, Ensures-attempt, Ensures-pure, Ensures-use,
}
use hookyard.Delivery.Model.{
  pending, EventAccepted, EndpointSnapshotWithId, Delivery, Tables, UniqueIndex, total, originals,
  absent, Clock,
}
use hookyard.Delivery.Repository.{
  has_id, same_pair, append_row, breaks, insert_row, replay_row, get, or_not_found,
  create_deliveries, create_replay,
}
use hookyard.Delivery.Rows.{find-exists}
use hookyard.Delivery.Service.{is_replayable, replay}
use hookyard.Delivery.Creation.{create_deliveries-total}

-- A new delivery of the same event to the same endpoint, which starts over.
pub record IsCopy (fresh : ℕ) (c : Clock) (source copy : Delivery) : Type 0 where
  pub new_id : copy.id ≡ fresh
  pub same_tenant : copy.tenant_id ≡ source.tenant_id
  pub same_event : copy.event_id ≡ source.event_id
  pub same_endpoint : copy.endpoint_id ≡ source.endpoint_id
  pub same_snapshot : copy.endpoint_snapshot ≡ source.endpoint_snapshot
  pub same_payload : copy.event_payload ≡ source.event_payload
  pub link : copy.replay_of_delivery_id ≡ some source.id
  pub waiting : copy.status ≡ pending
  pub due_now : copy.next_attempt_at ≡ c.db_now
  pub untried : (copy.attempt_count ≡ 0) × (copy.last_attempt_at ≡ none)
  pub unreported :
      (copy.last_status_code ≡ none)
      × (copy.last_error_code ≡ none)
      × (copy.last_error_message ≡ none)
  pub unleased : (copy.lease_owner ≡ none) × (copy.lease_expires_at ≡ none)
  pub uncompleted : copy.completed_at ≡ none
  pub made_now : (copy.created_at ≡ c.db_now) × (copy.updated_at ≡ c.db_now)

replay_row-IsCopy : (fresh : ℕ) (c : Clock) (d : Delivery) → IsCopy fresh c d (replay_row fresh c d)
replay_row-IsCopy fresh c d = record {
  new_id = refl;
  same_tenant = refl;
  same_event = refl;
  same_endpoint = refl;
  same_snapshot = refl;
  same_payload = refl;
  link = refl;
  waiting = refl;
  due_now = refl;
  untried = (refl, refl);
  unreported = (refl, refl, refl);
  unleased = (refl, refl);
  uncompleted = refl;
  made_now = (refl, refl);
}

-- What `replay` yields: a failed or dead delivery of the tenant, copied as a new row.
pub record IsReplay (tenant_id id fresh : ℕ) (c : Clock) (before after : Tables) : Type 0 where
  pub source : Delivery
  pub found : find (λ d. has_id id d && d.tenant_id == tenant_id) before.deliveries ≡ some source
  pub replayable : is_replayable source.status ≡ true
  pub copy : Delivery
  pub is_copy : IsCopy fresh c source copy
  pub added : after.deliveries ≡ before.deliveries ++ copy ∷ []
  pub kept : after.attempts ≡ before.attempts

get-Ensures :
    (tenant_id id : ℕ) (before : Tables)
    → Ensures
        (λ t. t ≡ before)
        (get tenant_id id)
        (λ d t.
          (t ≡ before)
          × (find (λ x. has_id id x && x.tenant_id == tenant_id) before.deliveries ≡ some d))
unfolding get
get-Ensures tenant_id id before =
    Ensures-bind P R Q (query _ _) _
      (Ensures-query P R _ _ (λ t e. (e, ap (λ u. find row u.deliveries) e))) from_row
  where
    row : Delivery → Bool
    row x = has_id id x && x.tenant_id == tenant_id

    P : Tables → Type 0
    P t = t ≡ before

    R : Option Delivery → Tables → Type 0
    R o t = (t ≡ before) × (o ≡ find row before.deliveries)

    Q : Delivery → Tables → Type 0
    Q d t = (t ≡ before) × (find row before.deliveries ≡ some d)

    from_row : (o : Option Delivery) → Ensures (R o) (or_not_found o) Q
    from_row none s h = tt
    from_row (some d) s h = (h.0, sym h.1)

insert_row-cases :
    (index : UniqueIndex) (row : Delivery) (t t' : Tables)
    → insert_row index row t ≡ some t'
    → (breaks index row t.deliveries ≡ false) × (append_row row t ≡ t')
unfolding insert_row
insert_row-cases index row t t' e = ground arith

-- The new row repeats the event and the endpoint of a row that is there, so a unique index over all
-- rows does not admit it.
not_total :
    (index : UniqueIndex) (id fresh tenant_id : ℕ) (c : Clock) (d : Delivery) (ds : List Delivery)
    → find (λ x. has_id id x && x.tenant_id == tenant_id) ds ≡ some d
    → breaks index (replay_row fresh c d) ds ≡ false
    → index ≢ total
unfolding breaks
not_total total id fresh tenant_id c d ds f b e =
    let taken : exists (same_pair (replay_row fresh c d)) ds ≡ true =
      find-exists _ (same_pair (replay_row fresh c d)) ds f
        (λ x q. subst (λ y. same_pair (replay_row fresh c d) y ≡ true) (sym q) (ground arith)) in
    cc taken
not_total originals id fresh tenant_id c d ds f b e = cc
not_total absent id fresh tenant_id c d ds f b e = cc

replay-Ensures :
    (index : UniqueIndex) (fresh : ℕ) (c : Clock) (tenant_id id : ℕ) (before : Tables)
    → Ensures
        (λ t. t ≡ before)
        (replay index fresh c tenant_id id)
        (λ n t. (n ≡ fresh) × (index ≢ total) × IsReplay tenant_id id fresh c before t)
unfolding replay create_replay
replay-Ensures index fresh c tenant_id id before =
    Ensures-bind _ _ Q (get tenant_id id) _ (get-Ensures tenant_id id before)
      (λ d. chosen d (is_replayable d.status) refl)
  where
    Q : ℕ → Tables → Type 0
    Q n t = (n ≡ fresh) × (index ≢ total) × IsReplay tenant_id id fresh c before t

    chosen :
        (d : Delivery) (b : Bool)
        → is_replayable d.status ≡ b
        → Ensures
            (λ t.
              (t ≡ before)
              × (find (λ x. has_id id x && x.tenant_id == tenant_id) before.deliveries ≡ some d))
            (if b
              then create_replay index fresh c d
              else throw (Error.other "delivery cannot be replayed"))
            Q
    chosen d true r s k =
        Ensures-then _ R Q (attempt _ _) _ (Ensures-attempt _ R _ _ step)
          (Ensures-pure R Q fresh (λ t k. (refl, k.0, k.1))) s k
      where
        R : Tables → Type 0
        R t = (index ≢ total) × IsReplay tenant_id id fresh c before t

        step :
            (t t' : Tables)
            → insert_row index (replay_row fresh c d) t ≡ some t'
            → (t ≡ before)
              × (find (λ x. has_id id x && x.tenant_id == tenant_id) before.deliveries ≡ some d)
            → R t'
        step t t' q k =
            let (free, new) = insert_row-cases index (replay_row fresh c d) t t' q in
            let here : breaks index (replay_row fresh c d) before.deliveries ≡ false =
              subst (λ u. breaks index (replay_row fresh c d) u.deliveries ≡ false) k.0 free in
            subst R new (
              not_total index id fresh tenant_id c d before.deliveries k.1 here,
              record {
                source = d;
                found = k.1;
                replayable = r;
                copy = replay_row fresh c d;
                is_copy = replay_row-IsCopy fresh c d;
                added = ap (λ u. u.deliveries ++ replay_row fresh c d ∷ []) k.0;
                kept = ap (λ u. u.attempts) k.0;
              },
            )
    chosen d false r s k = tt

-- A replay that succeeds copies a delivery of the tenant that has failed or gone to the dead letter
-- queue: it adds one row, pending, with no attempts, the same event, endpoint, snapshot and payload
-- and a link to the original, under the id that it returns, and touches no other row or attempt.
pub replay-IsReplay :
    (index : UniqueIndex) (fresh : ℕ) (c : Clock) (tenant_id id n : ℕ) (s s' : Session Tables)
    → replay index fresh c tenant_id id s ≡ (ok n, s')
    → (n ≡ fresh) × IsReplay tenant_id id fresh c s.db s'.db
replay-IsReplay index fresh c tenant_id id n s s' q =
    let (e, _, r) =
      Ensures-use _ (λ n t. (n ≡ fresh) × (index ≢ total) × IsReplay tenant_id id fresh c s.db t) _
        s s' n (replay-Ensures index fresh c tenant_id id s.db) refl q in
    (e, r)

-- No schema serves both handlers: whatever unique index there is over event and endpoint, if an
-- event is ever accepted for an endpoint (ON CONFLICT names no predicate, so it wants an index over
-- all rows), no replay ever succeeds (such an index refuses the second row of the pair).
pub accept_or_replay :
    (index : UniqueIndex) (fresh : ℕ → ℕ) (c : Clock) (e : EventAccepted)
    (ep : EndpointSnapshotWithId) (eps : List EndpointSnapshotWithId) (s s' : Session Tables)
    (id' : ℕ) (c' : Clock) (tenant_id id n : ℕ) (t t' : Session Tables)
    → create_deliveries index fresh c e (ep ∷ eps) s ≡ (ok tt, s')
    → replay index id' c' tenant_id id t ≢ (ok n, t')
accept_or_replay index fresh c e ep eps s s' id' c' tenant_id id n t t' q q' =
    (Ensures-use _ (λ n u. (n ≡ id') × (index ≢ total) × IsReplay tenant_id id id' c' t.db u) _ t t'
        n (replay-Ensures index id' c' tenant_id id t.db) refl q').1
      (create_deliveries-total index fresh c e ep eps s s' q)
