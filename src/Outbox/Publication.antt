-- ===== src/Outbox/Publication.antt =====
-- What the outbox of endpoint-service/internal/outbox promises.
use hookyard.Base.{
  ℕ, ◌+◌, ◌≡◌, refl, sym, ap, ◌∙◌, subst, Bytes, Bool, true, false, is_some, List, [], ◌∷◌, ◌++◌,
  ◌==◌, ==_refl, if_rule, All, All-map, All-update_to, exists, exists-append_left,
  exists-append_last, update, update-none, arith,
}
use hookyard.Base.Session.{Result, ok, err, Session, query, for_each}
use hookyard.Base.Keeps.{
  Keeps, Keeps-bind, Keeps-then, Keeps-call, Keeps-exec, Keeps-query, Keeps-pure, Keeps-for_each,
  Keeps-transaction, Turns-last,
}
use hookyard.Outbox.Relay.{
  Row, Queue, write, claim, locked_to, published, mark_published, released, release, relay,
  relay_claimed, flush,
}

-- Kafka has taken the message of a row that is marked as published.
abbrev pub MarkedIsSent : List ℕ → Row → Type 0
MarkedIsSent sent row = is_some row.published_at ≡ true → exists (λ i. i == row.id) sent ≡ true

abbrev pub AllSent : Queue → Type 0
AllSent q = All (MarkedIsSent q.sent) q.rows

Ready : ℕ → Queue → Type 0
Ready id q = AllSent q × (exists (λ i. i == id) q.sent ≡ true)

-- A write that marks no row.
write-AllSent :
    (p : Row → Bool) (f : Row → Row) (q : Queue)
    → ((row : Row) → (f row).published_at ≡ row.published_at)
    → ((row : Row) → (f row).id ≡ row.id)
    → AllSent q
    → AllSent (write p f q)
write-AllSent p f q same_mark same_id h =
    All-update_to _ _ p f q.rows
      (λ a k.
        if_rule (MarkedIsSent q.sent) (p a) (f a) a
          (λ hit marked.
            subst (λ i. exists (λ x. x == i) q.sent ≡ true) (sym (same_id a))
              (k (subst (λ o. is_some o ≡ true) (same_mark a) marked)))
          (λ miss. k))
      h

mark-AllSent :
    (now id : ℕ) (worker : Bytes) (q : Queue)
    → Ready id q
    → AllSent (write (locked_to id worker) (published now) q)
unfolding Ready
mark-AllSent now id worker q h =
    All-update_to _ _ (locked_to id worker) (published now) q.rows
      (λ a k.
        if_rule (MarkedIsSent q.sent) (locked_to id worker a) (published now a) a
          (λ hit marked.
            let same : a.id ≡ id = ground arith in
            subst (λ i. exists (λ x. x == i) q.sent ≡ true) (sym same) h.1)
          (λ miss. k))
      h.0

relay-Keeps :
    (refuses : ℕ → Bool) (now : ℕ) (worker : Bytes) (m : Row)
    → Keeps AllSent (relay refuses now worker m)
unfolding relay release mark_published Ready
relay-Keeps refuses now worker m =
    if_rule (Keeps AllSent) (refuses m.id) _ _
      (λ refused. Keeps-exec AllSent _ _ (λ q. write-AllSent _ _ q (λ row. refl) (λ row. refl)))
      (λ taken s h.
        Turns-last (Ready m.id) AllSent AllSent _ _ (λ q k. k.0) (mark-AllSent now m.id worker)
          (record s { db = record (s.db) { sent = s.db.sent ++ m.id ∷ [] } })
          (
            All-map _ _ s.db.rows (λ row k marked. exists-append_left _ s.db.sent _ (k marked)) h,
            exists-append_last _ s.db.sent m.id (==_refl m.id),
          ))

claim-Keeps :
    (held : ℕ → Bool) (now : ℕ) (worker : Bytes) (limit lease : ℕ)
    → Keeps AllSent (claim held now worker limit lease)
unfolding claim
claim-Keeps held now worker limit lease = Keeps-transaction AllSent _ _ _ (
    Keeps-bind AllSent (query _ _) _ (Keeps-query AllSent _ _) (λ msgs.
      Keeps-then AllSent (for_each msgs _) _
        (Keeps-for_each AllSent msgs _ (λ _. Keeps-call AllSent _))
        (Keeps-then AllSent (for_each msgs _) _
          (Keeps-for_each AllSent msgs _
            (λ m. Keeps-exec AllSent _ _ (λ q. write-AllSent _ _ q (λ row. refl) (λ row. refl))))
          (Keeps-pure AllSent msgs))))

-- Whatever fails in a flush, it keeps this: every message marked as published has been taken by
-- Kafka.
pub flush-AllSent :
    (held refuses : ℕ → Bool) (now : ℕ) (worker : Bytes) (batch_size lease : ℕ) (s : Session Queue)
    → AllSent s.db
    → AllSent (flush held refuses now worker batch_size lease s).db
unfolding flush
flush-AllSent held refuses now worker batch_size lease s h =
    relayed _ (claim-Keeps held now worker batch_size lease s h)
  where
    relayed :
        (r : Result (List Row) × Session Queue)
        → AllSent r.1.db
        → AllSent (relay_claimed refuses now worker r).db
    relayed (err e, t) k = k
    relayed (ok msgs, t) k =
        Keeps-for_each AllSent msgs (relay refuses now worker) (relay-Keeps refuses now worker) t k

-- A worker that no longer holds the lock of a message, because its lease ran out and another took it,
-- neither marks the message as published nor releases it.
pub settling_needs_lock :
    (now id delay : ℕ) (worker : Bytes) (s : Session Queue)
    → exists (locked_to id worker) s.db.rows ≡ false
    → ((mark_published now id worker s).1.db.rows ≡ s.db.rows)
      × ((release now id worker delay s).1.db.rows ≡ s.db.rows)
unfolding mark_published release
settling_needs_lock now id delay worker s lost = (
  Keeps-exec Same _ _ (kept (published now)) s refl,
  Keeps-exec Same _ _ (kept (released (now + delay))) s refl,
)
  where
    Same : Queue → Type 0
    Same q = q.rows ≡ s.db.rows

    kept : (f : Row → Row) (q : Queue) → Same q → Same (write (locked_to id worker) f q)
    kept f q h = ap (update (locked_to id worker) f) h ∙ update-none _ f s.db.rows lost
