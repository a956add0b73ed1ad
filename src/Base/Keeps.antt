-- ===== src/Base/Keeps.antt =====
-- Rules for what a program with driver faults keeps, whatever the faults are.
use mathlib.Core.Path.{◌≡◌, refl}
use mathlib.Core.Bool.{Bool, true, false}
use mathlib.Core.Option.{Option, none, some}
use hookyard.Base.Tests.{if◌then◌else◌}
use mathlib.Core.List.{List, [], ◌∷◌}
use native.Mathlib.Omega.{arith}
use hookyard.Base.Session.{
  Error, Result, ok, err, Session, M, bind, ◌>>=◌, ◌>>◌, pure, throw, call, exec, store, stored,
  attempt, query, roll_back, transaction, scoped, overlapped, judged, statement, for_each,
}

module _ {D : Type 0} (P : D → Type 0) where
  -- Every run of `m` from tables that satisfy `P` ends in tables that satisfy `P`.
  abbrev pub Keeps : {A : Type 0} → M D A → Type 0
  Keeps m = (s : Session D) → P s.db → P (m s).1.db

  pub Keeps-call : (e : Error) → Keeps (call e)
  unfolding call
  Keeps-call e s h = ground arith

  module _ {A B : Type 0} where
    pub Keeps-bind :
        (m : M D A) (f : A → M D B) → Keeps m → ((a : A) → Keeps (f a)) → Keeps (m >>= f)
    Keeps-bind m f km kf s h = go (m s) (km s h)
      where
        go : (r : Result A × Session D) → P r.1.db → P (bind r f).1.db
        go (ok a, t) k = kf a t k
        go (err e, t) k = k

  module _ {B : Type 0} where
    pub Keeps-then : (m : M D (Unit {0})) (k : M D B) → Keeps m → Keeps k → Keeps (m >> k)
    Keeps-then m k km kk = Keeps-bind m (λ _. k) km (λ _. kk)

  module _ {A : Type 0} where
    pub Keeps-pure : (a : A) → Keeps (pure a)
    Keeps-pure a s h = h

    pub Keeps-query : (e : Error) (f : D → A) → Keeps (query e f)
    unfolding query
    Keeps-query e f s h = ground arith

    -- A transaction that fails leaves the tables as they were, so only its body is in question.
    pub Keeps-transaction : (b c : Error) (m : M D A) → Keeps m → Keeps (transaction b c m)
    unfolding transaction
    Keeps-transaction b c m km s h = roll s.db h _ (body_keeps s h)
      where
        roll : (old : D) → P old → (r : Result A × Session D) → P r.1.db → P (roll_back old r).1.db
        roll old ho (ok a, t) k = k
        roll old ho (err e, t) k = ho

        body_keeps : Keeps (do call b; a ← m; call c; pure a)
        body_keeps =
            Keeps-then (call b) _ (Keeps-call b)
              (Keeps-bind m _ km (λ a. Keeps-then (call c) _ (Keeps-call c) (Keeps-pure a)))

  pub Keeps-exec : (e : Error) (f : D → D) → ((d : D) → P d → P (f d)) → Keeps (exec e f)
  unfolding exec
  Keeps-exec e f kf s h = ground (arith, kf s.db h)

  pub Keeps-attempt :
      (e : Error) (f : D → Option D)
      → ((d d' : D) → f d ≡ some d' → P d → P d')
      → Keeps (attempt e f)
  unfolding attempt call
  Keeps-attempt e f kf s h = go (call e s) (Keeps-call e s h)
    where
      go : (r : Result (Unit {0}) × Session D) → P r.1.db → P (bind r (λ _. store e f)).1.db
      go (ok u, t) k = kept (f t.db) refl
        where
          kept : (o : Option D) → f t.db ≡ o → P (stored e t o).1.db
          kept none q = k
          kept (some d') q = kf t.db d' q k
      go (err x, t) k = k

  pub Keeps-statement :
      (e : Error) (violation : D → Option Error) (f : D → D)
      → ((d : D) → violation d ≡ none → P d → P (f d))
      → Keeps (statement e violation f)
  unfolding statement call
  Keeps-statement e violation f kf s h = go (call e s) (Keeps-call e s h)
    where
      go :
          (r : Result (Unit {0}) × Session D)
          → P r.1.db
          → P (bind r (λ _ t. judged f t (violation t.db))).1.db
      go (ok u, t) k = judge (violation t.db) refl
        where
          judge : (o : Option Error) → violation t.db ≡ o → P (judged f t o).1.db
          judge none q = kf t.db q k
          judge (some x) q = k
      go (err x, t) k = k

  pub Keeps-scoped : {A : Type 0} (b : Error) (m : M D A) → Keeps m → Keeps (scoped b m)
  unfolding scoped
  Keeps-scoped {A} b m km s h = roll s.db h _ (Keeps-then (call b) m (Keeps-call b) km s h)
    where
      roll : (old : D) → P old → (r : Result A × Session D) → P r.1.db → P (roll_back old r).1.db
      roll old ho (ok a, t) k = k
      roll old ho (err e, t) k = ho

  pub Keeps-for_each :
      {A : Type 0} (xs : List A) (body : A → M D (Unit {0}))
      → ((a : A) → Keeps (body a))
      → Keeps (for_each xs body)
  unfolding for_each
  Keeps-for_each [] body kb s h = h
  Keeps-for_each (a ∷ rest) body kb s h =
      Keeps-then (body a) (for_each rest body) (kb a) (Keeps-for_each rest body kb) s h

-- A change of what is known: from tables that satisfy `P`, whatever the outcome, `m` ends in
-- tables that satisfy `Q`.
abbrev pub Turns : {D A : Type 0} → (D → Type 0) → (D → Type 0) → M D A → Type 0
Turns {D} P Q m = (s : Session D) → P s.db → Q (m s).1.db

module _ {D : Type 0} (P P' Q : D → Type 0) where
  pub Turns-bind :
      {A B : Type 0} (m : M D A) (f : A → M D B)
      → Turns P P' m
      → ((d : D) → P' d → Q d)
      → ((a : A) → Turns P' Q (f a))
      → Turns P Q (m >>= f)
  Turns-bind {A} {B} m f tm weaken tf s h = go (m s) (tm s h)
    where
      go : (r : Result A × Session D) → P' r.1.db → Q (bind r f).1.db
      go (ok a, t) k = tf a t k
      go (err e, t) k = weaken t.db k

  -- The part of a transaction behind what others have committed.
  pub Turns-overlapped :
      {A : Type 0} (others : D → D) (m : M D A)
      → ((d : D) → P d → P' (others d))
      → ((d : D) → P' d → Q d)
      → Turns P' Q m
      → Turns P Q (overlapped others m)
  unfolding overlapped
  Turns-overlapped {A} others m step weaken tm s h =
      back (m (record s { db = others s.db })) (tm (record s { db = others s.db }) (step s.db h))
    where
      back : (r : Result A × Session D) → Q r.1.db → Q (roll_back (others s.db) r).1.db
      back (ok a, t) k = k
      back (err e, t) k = weaken (others s.db) (step s.db h)

  -- A statement in front of the rest: if it fails, nothing has changed.
  pub Turns-exec :
      {B : Type 0} (e : Error) (f : D → D) (k : M D B)
      → ((d : D) → P d → Q d)
      → ((d : D) → P d → P' (f d))
      → Turns P' Q k
      → Turns P Q (exec e f >> k)
  unfolding exec call
  Turns-exec {B} e f k weaken step tk s h = go (call e s) (Keeps-call P e s h)
    where
      go :
          (r : Result (Unit {0}) × Session D)
          → P r.1.db
          → Q (bind (bind r (λ _ t. (ok tt, record t { db = f t.db }))) (λ _. k)).1.db
      go (ok u, t) hp = tk (record t { db = f t.db }) (step t.db hp)
      go (err x, t) hp = weaken t.db hp

  -- A guard in front of the rest.
  pub Turns-unless :
      {B : Type 0} (b : Bool) (e : Error) (k : M D B)
      → ((d : D) → P d → Q d)
      → (b ≡ false → Turns P Q k)
      → Turns P Q ((if b then throw e else pure tt) >> k)
  Turns-unless true e k weaken tk s h = weaken s.db h
  Turns-unless false e k weaken tk s h = tk refl s h

  pub Turns-when :
      {B : Type 0} (b : Bool) (e : Error) (k : M D B)
      → ((d : D) → P d → Q d)
      → (b ≡ true → Turns P Q k)
      → Turns P Q ((if b then pure tt else throw e) >> k)
  Turns-when true e k weaken tk s h = tk refl s h
  Turns-when false e k weaken tk s h = weaken s.db h

  pub Turns-statement :
      {B : Type 0} (e : Error) (violation : D → Option Error) (f : D → D) (k : M D B)
      → ((d : D) → P d → Q d)
      → ((d : D) → P d → P' (f d))
      → ((d : D) → P' d → Q d)
      → Turns P' Q k
      → Turns P Q (statement e violation f >> k)
  unfolding statement call
  Turns-statement {B} e violation f k weaken step weaken' tk s h =
      go (call e s) (Keeps-call P e s h)
    where
      judge : (t : Session D) → P t.db → (o : Option Error) → Q (bind (judged f t o) (λ _. k)).1.db
      judge t hp none = tk (record t { db = f t.db }) (step t.db hp)
      judge t hp (some x) = weaken t.db hp

      go :
          (r : Result (Unit {0}) × Session D)
          → P r.1.db
          → Q (bind (bind r (λ _ t. judged f t (violation t.db))) (λ _. k)).1.db
      go (ok u, t) hp = judge t hp (violation t.db)
      go (err x, t) hp = weaken t.db hp

  -- A last statement.
  pub Turns-last :
      (e : Error) (f : D → D)
      → ((d : D) → P d → Q d)
      → ((d : D) → P d → Q (f d))
      → Turns P Q (exec e f)
  unfolding exec call
  Turns-last e f weaken step s h = go (call e s) (Keeps-call P e s h)
    where
      go :
          (r : Result (Unit {0}) × Session D)
          → P r.1.db
          → Q (bind r (λ _ t. (ok tt, record t { db = f t.db }))).1.db
      go (ok u, t) hp = step t.db hp
      go (err x, t) hp = weaken t.db hp

module _ {D A : Type 0} (P Q : D → Type 0) (K : A → D → Type 0) where
  -- A read hands on what its rows have to do with the tables.
  pub Turns-query :
      {B : Type 0} (e : Error) (f : D → A) (k : A → M D B)
      → ((d : D) → P d → Q d)
      → ((d : D) → P d → K (f d) d)
      → ((a : A) → Turns (K a) Q (k a))
      → Turns P Q (query e f >>= k)
  unfolding query call
  Turns-query {B} e f k weaken read tk s h = go (call e s) (Keeps-call P e s h)
    where
      go :
          (r : Result (Unit {0}) × Session D)
          → P r.1.db
          → Q (bind (bind r (λ _ t. (ok (f t.db), t))) k).1.db
      go (ok u, t) hp = tk (f t.db) t (read t.db hp)
      go (err x, t) hp = weaken t.db hp

module _ {D : Type 0} (P Q : D → Type 0) where
  pub Turns-transaction :
      {A : Type 0} (b c : Error) (m : M D A)
      → ((d : D) → P d → Q d)
      → Turns P Q m
      → Turns P Q (transaction b c m)
  unfolding transaction
  Turns-transaction {A} b c m weaken tm s h = roll s.db (weaken s.db h) _ (body_turns s h)
    where
      roll : (old : D) → Q old → (r : Result A × Session D) → Q r.1.db → Q (roll_back old r).1.db
      roll old ho (ok a, t) k = k
      roll old ho (err e, t) k = ho

      body_turns : Turns P Q (do call b; a ← m; call c; pure a)
      body_turns = Turns-bind P P Q (call b) _ (Keeps-call P b) weaken (λ _.
          Turns-bind P Q Q m _ tm (λ d q. q)
            (λ a. Keeps-then Q (call c) _ (Keeps-call Q c) (Keeps-pure Q a)))
