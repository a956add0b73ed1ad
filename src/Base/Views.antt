-- ===== src/Base/Views.antt =====
-- Programs that read the tables and cannot tell them from a part of them.
use mathlib.Core.Path.{◌≡◌, refl, sym, ap, ap₂, ◌∙◌, subst}
use mathlib.Core.Bool.{Bool, true, false}
use mathlib.Core.List.{List, [], ◌∷◌}
use hookyard.Base.Tests.{if◌then◌else◌}
use hookyard.Base.Session.{
  Error, Result, ok, err, Session, M, bind, ◌>>=◌, ◌>>◌, pure, throw, call, query, lift, for_each,
}

module _ {D : Type 0} (view : D → D) where
  -- The second session holds the part of the first, and the same faults are to come.
  pub record Shows (s s' : Session D) : Type 0 where
    pub faults : s'.faults ≡ s.faults
    pub db : s'.db ≡ view s.db

  -- The same result, on sessions that are related as before.
  abbrev pub Alike : {A : Type 0} → Result A × Session D → Result A × Session D → Type 0
  Alike x y = (y.0 ≡ x.0) × Shows x.1 y.1

  abbrev pub Blind : {A : Type 0} → M D A → Type 0
  Blind m = (s s' : Session D) → Shows s s' → Alike (m s) (m s')

  module _ {A : Type 0} where
    pub Blind-lift : (r : Result A) → Blind (lift r)
    Blind-lift r s s' h = (refl, h)

    pub Blind-pure : (a : A) → Blind (pure a)
    Blind-pure a s s' h = (refl, h)

    pub Blind-throw : (e : Error) → Blind {A = A} (throw e)
    Blind-throw e s s' h = (refl, h)

    pub Blind-if : (b : Bool) (m k : M D A) → Blind m → Blind k → Blind (if b then m else k)
    Blind-if true m k em ek = em
    Blind-if false m k em ek = ek

  pub Blind-call : (e : Error) → Blind (call e)
  unfolding call
  Blind-call e s s' h =
      subst (λ x. Alike (call e s) (call e x)) (sym (ap₂ session h.db h.faults)) (go s.db s.faults)
    where
      session : D → List Bool → Session D
      session d fl = record { db = d; faults = fl }

      go : (d : D) (fl : List Bool) → Alike (call e (session d fl)) (call e (session (view d) fl))
      go d [] = (refl, record { faults = refl; db = refl })
      go d (true ∷ fl) = (refl, record { faults = refl; db = refl })
      go d (false ∷ fl) = (refl, record { faults = refl; db = refl })

  module _ {A B : Type 0} where
    pub Blind-bind :
        (m : M D A) (f : A → M D B) → Blind m → ((a : A) → Blind (f a)) → Blind (m >>= f)
    Blind-bind m f em ef s s' h = go (m s) (m s') (em s s' h)
      where
        value : A → Result A → A
        value a (ok b) = b
        value a (err e) = a

        problem : Error → Result A → Error
        problem e (ok b) = e
        problem e (err x) = x

        go : (x y : Result A × Session D) → Alike x y → Alike (bind x f) (bind y f)
        go (ok a, t) (ok b, t') k =
            subst (λ z. Alike (f a t) (f z t')) (sym (ap (value a) k.0)) (ef a t t' k.1)
        go (ok a, t) (err e, t') k = cc
        go (err e, t) (ok b, t') k = cc
        go (err e, t) (err e', t') k = (ap err (ap (problem e) k.0), k.1)

  module _ {B : Type 0} where
    pub Blind-then : (m : M D (Unit {0})) (k : M D B) → Blind m → Blind k → Blind (m >> k)
    Blind-then m k em ek = Blind-bind m (λ _. k) em (λ _. ek)

  module _ {A : Type 0} where
    pub Blind-query : (e : Error) (q : D → A) → ((d : D) → q (view d) ≡ q d) → Blind (query e q)
    unfolding query
    Blind-query e q same =
        Blind-bind (call e) (λ _ s. (ok (q s.db), s)) (Blind-call e)
          (λ u s s' h. (ap ok (ap q h.db ∙ same s.db), h))

    pub Blind-for_each :
        (xs : List A) (body : A → M D (Unit {0}))
        → ((a : A) → Blind (body a))
        → Blind (for_each xs body)
    unfolding for_each
    Blind-for_each [] body eb = Blind-pure tt
    Blind-for_each (x ∷ xs) body eb =
        Blind-then (body x) (for_each xs body) (eb x) (Blind-for_each xs body eb)
