-- ===== src/Event/Batches.antt =====
-- What one batch of event-service/internal/outbox/publisher.go writes to Kafka.
use hookyard.Base.{
  ℕ, ◌≡◌, refl, sym, ap, ◌∙◌, subst, Bytes, Bool, Option, none, some, List, [], ◌∷◌, ◌++◌, map,
  is_none, select, select-hit, select-miss,
}
use hookyard.Base.Session.{Session, Result, other, ok, err, call, query, for_each, ◌>>◌}
use hookyard.Base.Ensures.{
  Ensures, Ensures-bind, Ensures-then, Ensures-call, Ensures-exec, Ensures-query, Ensures-use,
  Ensures-for_each,
}
use hookyard.Event.Store.{OutboxRow, Notation}
use hookyard.Event.Publisher.{
  Message, message_of, pending, Wire, settle_row, settle_rows, keep_sent, publish_rows,
  publish_batch,
}

module _ (n : Notation) (now : ℕ) (refuses : ℕ → Option Bytes) where
  -- The messages of the rows that Kafka does not refuse, in their order.
  abbrev pub messages : List OutboxRow → List Message
  messages rows = map (message_of n) (select (λ r. is_none (refuses r.id)) rows)

  Sent : List Message → Wire → Type 0
  Sent ms w = w.sent ≡ ms

  append_assoc : (xs ys zs : List Message) → (xs ++ ys) ++ zs ≡ xs ++ (ys ++ zs)
  append_assoc [] ys zs = refl
  append_assoc (x ∷ xs) ys zs = ap (λ u. x ∷ u) (append_assoc xs ys zs)

  append_nil : (xs : List Message) → xs ++ [] ≡ xs
  append_nil [] = refl
  append_nil (x ∷ xs) = ap (λ u. x ∷ u) (append_nil xs)

  -- A turn of the loop, given what the rest of it does.
  settle_first :
      (row : OutboxRow) (rest : List OutboxRow) (ms : List Message)
      → ((ms' : List Message)
          → Ensures (Sent ms') (settle_rows n now refuses rest) (λ _. Sent (ms' ++ messages rest)))
      → Ensures
          (Sent ms)
          (do settle_row n now row (refuses row.id); settle_rows n now refuses rest)
          (λ _. Sent (ms ++ messages (row ∷ rest)))
  unfolding settle_row Sent
  settle_first row rest ms later = turn (refuses row.id) refl
    where
      go :
          (ms' : List Message) (o : Option Bytes)
          → Ensures (Sent ms) (settle_row n now row o) (λ _. Sent ms')
          → ms' ++ messages rest ≡ ms ++ messages (row ∷ rest)
          → Ensures
              (Sent ms)
              (do settle_row n now row o; settle_rows n now refuses rest)
              (λ _. Sent (ms ++ messages (row ∷ rest)))
      go ms' o one e =
          Ensures-then (Sent ms) (Sent ms') (λ _. Sent (ms ++ messages (row ∷ rest)))
            (settle_row n now row o) (settle_rows n now refuses rest) one
            (subst (λ u. Ensures (Sent ms') (settle_rows n now refuses rest) (λ _. Sent u)) e
              (later ms'))

      settled : (o : Option Bytes) → List Message
      settled none = ms ++ message_of n row ∷ []
      settled (some message) = ms

      one : (o : Option Bytes) → Ensures (Sent ms) (settle_row n now row o) (λ _. Sent (settled o))
      one none s h =
          Ensures-exec (Sent (settled none)) (Sent (settled none)) _ _ (λ w k. k) _
            (ap (λ u. u ++ message_of n row ∷ []) h)
      one (some message) s h = Ensures-exec (Sent ms) (Sent ms) _ _ (λ w k. k) s h

      joined :
          (o : Option Bytes)
          → refuses row.id ≡ o
          → settled o ++ messages rest ≡ ms ++ messages (row ∷ rest)
      joined none e =
          append_assoc ms (message_of n row ∷ []) (messages rest)
          ∙ ap (λ u. ms ++ map (message_of n) u) (sym (select-hit _ row rest (ap is_none e)))
      joined (some message) e =
          ap (λ u. ms ++ map (message_of n) u) (sym (select-miss _ row rest (ap is_none e)))

      turn :
          (o : Option Bytes)
          → refuses row.id ≡ o
          → Ensures
              (Sent ms)
              (do settle_row n now row o; settle_rows n now refuses rest)
              (λ _. Sent (ms ++ messages (row ∷ rest)))
      turn o e = go (settled o) o (one o) (joined o e)

  settle_rows-Ensures :
      (rows : List OutboxRow) (ms : List Message)
      → Ensures (Sent ms) (settle_rows n now refuses rows) (λ _. Sent (ms ++ messages rows))
  unfolding settle_rows Sent select
  settle_rows-Ensures [] ms s h = h ∙ sym (append_nil ms)
  settle_rows-Ensures (row ∷ rest) ms s h = settle_first row rest ms (settle_rows-Ensures rest) s h

  publish_rows-Ensures :
      (locked : ℕ → Bool) (before : Wire)
      → Ensures
          (λ w. w ≡ before)
          (publish_rows n locked refuses now)
          (λ _. Sent (before.sent ++ messages (pending locked before.tables.outbox)))
  unfolding publish_rows Sent
  publish_rows-Ensures locked before = Ensures-then P P Q (call _) _ (Ensures-call P _) (
      Ensures-bind P R Q (query _ _) _
        (Ensures-query P R _ _
          (λ w e. (ap (λ u. pending locked u.tables.outbox) e, ap (λ u. u.sent) e)))
        written)
    where
      P : Wire → Type 0
      P w = w ≡ before

      R : List OutboxRow → Wire → Type 0
      R rows w = (rows ≡ pending locked before.tables.outbox) × (w.sent ≡ before.sent)

      Q : Unit {0} → Wire → Type 0
      Q u w = w.sent ≡ before.sent ++ messages (pending locked before.tables.outbox)

      settled :
          (rows : List OutboxRow)
          → Ensures (R rows) (do settle_rows n now refuses rows; call (other "commit")) Q
      settled rows s h =
          Ensures-then (Sent before.sent) (Q tt) Q (settle_rows n now refuses rows) (call _)
            (subst
              (λ u.
                Ensures (Sent before.sent) (settle_rows n now refuses rows)
                  (λ _. Sent (before.sent ++ messages u)))
              h.0 (settle_rows-Ensures rows before.sent))
            (Ensures-call (Q tt) _) s h.1

      written :
          (rows : List OutboxRow)
          → Ensures
              (R rows)
              (do
                for_each rows (λ _. call (other "scan outbox"))
                settle_rows n now refuses rows
                call (other "commit"))
              Q
      written rows =
          Ensures-then (R rows) (R rows) Q (for_each rows _) _
            (Ensures-for_each (R rows) rows _ (λ _. Ensures-call (R rows) _)) (settled rows)

kept_ok :
    (old : Wire) (r : Result (Unit {0}) × Session Wire) (s' : Session Wire)
    → keep_sent old r ≡ (ok tt, s')
    → r ≡ (ok tt, s')
kept_ok old (ok u, s) s' e = e
kept_ok old (err x, s) s' e = cc

-- A batch that reports success has written to Kafka, after what was there, exactly one message for
-- each pending row that Kafka did not refuse, in the order in which the rows were read.
pub publish_batch-messages :
    (n : Notation) (locked : ℕ → Bool) (refuses : ℕ → Option Bytes) (now : ℕ) (s s' : Session Wire)
    → publish_batch n locked refuses now s ≡ (ok tt, s')
    → s'.db.sent ≡ s.db.sent ++ messages n now refuses (pending locked s.db.tables.outbox)
unfolding publish_batch Sent
publish_batch-messages n locked refuses now s s' run =
    Ensures-use (λ w. w ≡ s.db) _ (publish_rows n locked refuses now) s s' tt
      (publish_rows-Ensures n now refuses locked s.db) refl (kept_ok s.db _ s' run)
