-- ===== src/Base/Ensures.antt =====
-- Rules for what a program yields when it succeeds.
use mathlib.Core.Path.{◌≡◌, refl, subst}
use mathlib.Core.Option.{Option, none, some}
use mathlib.Core.List.{List, [], ◌∷◌}
use native.Mathlib.Omega.{arith}
use mathlib.Core.Bool.{Bool, true, false}
use hookyard.Base.Tests.{if◌then◌else◌}
use hookyard.Base.Keeps.{Keeps, Turns}
use hookyard.Base.Session.{
  Error, Result, ok, err, Session, M, bind, ◌>>=◌, ◌>>◌, pure, throw, call, exec, stored, store,
  attempt, query, roll_back, transaction, scoped, overlapped, judged, statement, for_each,
}

abbrev pub Post : {D A : Type 0} → (A → D → Type 0) → Result A × Session D → Type 0
Post Q (ok a, s) = Q a s.db
Post Q (err e, s) = Unit

-- From tables that satisfy `P`, a run of `m` that succeeds ends with a value and tables that are
-- in the relation `Q`.
abbrev pub Ensures : {D A : Type 0} → (D → Type 0) → M D A → (A → D → Type 0) → Type 0
Ensures {D} P m Q = (s : Session D) → P s.db → Post Q (m s)

module _ {D : Type 0} (P : D → Type 0) where
  module _ {A B : Type 0} where
    pub Ensures-bind :
        (R : A → D → Type 0) (Q : B → D → Type 0) (m : M D A) (f : A → M D B)
        → Ensures P m R
        → ((a : A) → Ensures (R a) (f a) Q)
        → Ensures P (m >>= f) Q
    Ensures-bind R Q m f em ef s h = go (m s) (em s h)
      where
        go : (r : Result A × Session D) → Post R r → Post Q (bind r f)
        go (ok a, t) k = ef a t k
        go (err e, t) k = tt

  module _ {B : Type 0} where
    pub Ensures-then :
        (R : D → Type 0) (Q : B → D → Type 0) (m : M D (Unit {0})) (k : M D B)
        → Ensures P m (λ _. R)
        → Ensures R k Q
        → Ensures P (m >> k) Q
    Ensures-then R Q m k em ek = Ensures-bind (λ _. R) Q m (λ _. k) em (λ _. ek)

  pub Ensures-call : (e : Error) → Ensures P (call e) (λ _. P)
  unfolding call
  Ensures-call e s h = ground arith

  module _ (Q : D → Type 0) where
    pub Ensures-exec :
        (e : Error) (f : D → D) → ((d : D) → P d → Q (f d)) → Ensures P (exec e f) (λ _. Q)
    unfolding exec
    Ensures-exec e f step s h = ground (arith, step s.db h)

    pub Ensures-attempt :
        (e : Error) (f : D → Option D)
        → ((d d' : D) → f d ≡ some d' → P d → Q d')
        → Ensures P (attempt e f) (λ _. Q)
    unfolding attempt call
    Ensures-attempt e f step =
        Ensures-then P (λ _. Q) (call e) (store e f) (Ensures-call e) (λ s h. go s h (f s.db) refl)
      where
        go : (s : Session D) → P s.db → (o : Option D) → f s.db ≡ o → Post (λ _. Q) (stored e s o)
        go s h none q = tt
        go s h (some d) q = step s.db d q h

    pub Ensures-statement :
        (e : Error) (violation : D → Option Error) (f : D → D)
        → ((d : D) → violation d ≡ none → P d → Q (f d))
        → Ensures P (statement e violation f) (λ _. Q)
    unfolding statement call
    Ensures-statement e violation f step =
        Ensures-then P (λ _. Q) (call e) _ (Ensures-call e) (λ s h. go s h (violation s.db) refl)
      where
        go :
            (s : Session D)
            → P s.db
            → (o : Option Error) → violation s.db ≡ o
            → Post (λ _. Q) (judged f s o)
        go s h none q = step s.db q h
        go s h (some x) q = tt

  module _ {A : Type 0} (Q : A → D → Type 0) where
    pub Ensures-query :
        (e : Error) (f : D → A) → ((d : D) → P d → Q (f d) d) → Ensures P (query e f) Q
    unfolding query
    Ensures-query e f step s h = ground (arith, step s.db h)

    pub Ensures-pure : (a : A) → ((d : D) → P d → Q a d) → Ensures P (pure a) Q
    Ensures-pure a step s h = step s.db h

    pub Ensures-transaction :
        (b c : Error) (m : M D A) → Ensures P m Q → Ensures P (transaction b c m) Q
    unfolding transaction
    Ensures-transaction b c m em s h = roll s.db _ (body s h)
      where
        roll : (old : D) (r : Result A × Session D) → Post Q r → Post Q (roll_back old r)
        roll old (ok a, t) k = k
        roll old (err e, t) k = tt

        body : Ensures P (do call b; a ← m; call c; pure a) Q
        body =
            Ensures-then P Q (call b) _ (Ensures-call b) (Ensures-bind Q Q m _ em (λ a. commit a))
          where
            commit : (a : A) → Ensures (Q a) (do call c; pure a) Q
            commit a s h = ground arith

    pub Ensures-scoped : (b : Error) (m : M D A) → Ensures P m Q → Ensures P (scoped b m) Q
    unfolding scoped
    Ensures-scoped b m em s h = roll s.db _ (Ensures-then P Q (call b) m (Ensures-call b) em s h)
      where
        roll : (old : D) (r : Result A × Session D) → Post Q r → Post Q (roll_back old r)
        roll old (ok a, t) k = k
        roll old (err e, t) k = tt

    -- The rule put to use: what is known of a run that succeeded.
    pub Ensures-use :
        (m : M D A) (s s' : Session D) (a : A)
        → Ensures P m Q
        → P s.db
        → m s ≡ (ok a, s')
        → Q a s'.db
    Ensures-use m s s' a em h e = subst (Post Q) e (em s h)

-- A guard in front of the rest.
module _ {D B : Type 0} (P : D → Type 0) (Q : B → D → Type 0) where
  pub Ensures-unless :
      (b : Bool) (e : Error) (k : M D B)
      → (b ≡ false → Ensures P k Q)
      → Ensures P ((if b then throw e else pure tt) >> k) Q
  Ensures-unless true e k ek s h = tt
  Ensures-unless false e k ek s h = ek refl s h

  pub Ensures-when :
      (b : Bool) (e : Error) (k : M D B)
      → (b ≡ true → Ensures P k Q)
      → Ensures P ((if b then pure tt else throw e) >> k) Q
  Ensures-when true e k ek s h = ek refl s h
  Ensures-when false e k ek s h = tt

-- A step whose value tells something of the tables, in front of the rest.
pub Turns-ensured :
    {D A B : Type 0} (P Q : D → Type 0) (K : A → D → Type 0) (m : M D A) (f : A → M D B)
    → Ensures P m K
    → Keeps P m
    → ((d : D) → P d → Q d)
    → ((a : A) → Turns (K a) Q (f a))
    → Turns P Q (m >>= f)
Turns-ensured {D} {A} {B} P Q K m f em km weaken tf s h = go (m s) (em s h) (km s h)
  where
    go : (r : Result A × Session D) → Post K r → P r.1.db → Q (bind r f).1.db
    go (ok a, t) k hp = tf a t k
    go (err e, t) k hp = weaken t.db hp

-- A loop keeps what each of its turns keeps.
pub Ensures-for_each :
    {D A : Type 0} (P : D → Type 0) (xs : List A) (body : A → M D (Unit {0}))
    → ((a : A) → Ensures P (body a) (λ _. P))
    → Ensures P (for_each xs body) (λ _. P)
unfolding for_each
Ensures-for_each P [] body eb s h = h
Ensures-for_each P (a ∷ rest) body eb s h =
    Ensures-then P P (λ _. P) (body a) (for_each rest body) (eb a) (Ensures-for_each P rest body eb)
      s h

-- Less may be claimed of a success.
pub Ensures-weaken :
    {D A : Type 0} (P : D → Type 0) (Q Q' : A → D → Type 0) (m : M D A)
    → ((a : A) (d : D) → Q a d → Q' a d)
    → Ensures P m Q
    → Ensures P m Q'
Ensures-weaken {D} {A} P Q Q' m less em s h = go (m s) (em s h)
  where
    go : (r : Result A × Session D) → Post Q r → Post Q' r
    go (ok a, t) k = less a t.db k
    go (err e, t) k = tt

-- A fact that is no matter of the tables outlives every program.
pub Ensures-const : {D A : Type 0} (C : Type 0) (m : M D A) → Ensures (λ _. C) m (λ _ _. C)
Ensures-const {D} {A} C m s h = go (m s)
  where
    go : (r : Result A × Session D) → Post (λ _ _. C) r
    go (ok a, t) = h
    go (err e, t) = tt

-- A transaction that reports an error leaves the tables as they were.
pub transaction_err :
    {D A : Type 0} (b c : Error) (m : M D A) (s s' : Session D) (e : Error)
    → transaction b c m s ≡ (err e, s')
    → s'.db ≡ s.db
unfolding transaction
transaction_err {D} {A} b c m s s' e = go _
  where
    go : (r : Result A × Session D) → roll_back s.db r ≡ (err e, s') → s'.db ≡ s.db
    go (ok a, t) q = cc
    go (err x, t) q = ground arith

-- The part of a transaction behind what others have committed.
pub Ensures-overlapped :
    {D A : Type 0} (P R : D → Type 0) (Q : A → D → Type 0) (others : D → D) (m : M D A)
    → ((d : D) → P d → R (others d))
    → Ensures R m Q
    → Ensures P (overlapped others m) Q
unfolding overlapped
Ensures-overlapped {D} {A} P R Q others m step em s h =
    back (m (record s { db = others s.db })) (em (record s { db = others s.db }) (step s.db h))
  where
    back : (r : Result A × Session D) → Post Q r → Post Q (roll_back (others s.db) r)
    back (ok a, t) k = k
    back (err e, t) k = tt
