-- ===== src/Base/Session.antt =====
-- A service's conversation with its database. The driver (pgx) is not part of the repository:
-- whether each of its calls fails is an input, the list of faults, and what a statement does to
-- the tables is written by the caller. A transaction that returns an error is rolled back.
use Prim.Native.String.{String}
use mathlib.Core.Path.{◌≡◌, refl}
use mathlib.Core.Bool.{Bool, true, false}
use mathlib.Core.Option.{Option, none, some}
use mathlib.Core.List.{List, [], ◌∷◌}

-- The sentinel errors that callers tell apart by errors.Is, and the errors they do not.
pub data Error : Type 0 where
  not_found : Error
  conflict : Error
  invalid : String → Error
  other : String → Error

pub data Result (A : Type 0) : Type 0 where
  ok : A → Result A
  err : Error → Result A

-- `faults` has an entry for each driver call to come, `true` for one that fails; past the end
-- every call succeeds.
pub record Session (D : Type 0) : Type 0 where
  pub db : D
  pub faults : List Bool

abbrev pub M : Type 0 → Type 0 → Type 0
M D A = Session D → Result A × Session D

module _ {D : Type 0} where
  abbrev pub bind : {A B : Type 0} → Result A × Session D → (A → M D B) → Result B × Session D
  bind (ok a, s) f = f a s
  bind (err e, s) f = (err e, s)

  infixl 5 ◌>>=◌ ◌>>◌
  abbrev pub ◌>>=◌ : {A B : Type 0} → M D A → (A → M D B) → M D B
  ◌>>=◌ m f s = bind (m s) f

  abbrev pub ◌>>◌ : {B : Type 0} → M D (Unit {0}) → M D B → M D B
  ◌>>◌ m k s = bind (m s) (λ _. k)

  abbrev pub pure : {A : Type 0} → A → M D A
  pure a s = (ok a, s)

  abbrev pub throw : {A : Type 0} → Error → M D A
  throw e s = (err e, s)

  call_on : List Bool → Error → M D (Unit {0})
  call_on [] e s = (ok tt, s)
  call_on (true ∷ rest) e s = (err e, record s { faults = rest })
  call_on (false ∷ rest) e s = (ok tt, record s { faults = rest })

  -- One call of the driver, reported as `e` if it fails.
  unfoldable pub call : Error → M D (Unit {0})
  unfolding call_on
  call e s = call_on s.faults e s

  -- A statement that changes the tables.
  unfoldable pub exec : Error → (D → D) → M D (Unit {0})
  unfolding call
  exec e f = do call e; λ s. (ok tt, record s { db = f s.db })

  abbrev pub stored : Error → Session D → Option D → Result (Unit {0}) × Session D
  stored e s none = (err e, s)
  stored e s (some d) = (ok tt, record s { db = d })

  abbrev pub store : Error → (D → Option D) → M D (Unit {0})
  store e f s = stored e s (f s.db)

  -- A statement that changes the tables or breaks a constraint of the schema.
  unfoldable pub attempt : Error → (D → Option D) → M D (Unit {0})
  unfolding call
  attempt e f = do call e; store e f

  -- A statement that reads the tables.
  unfoldable pub query : {A : Type 0} → Error → (D → A) → M D A
  unfolding call
  query e f = do call e; λ s. (ok (f s.db), s)

  abbrev pub roll_back : {A : Type 0} → D → Result A × Session D → Result A × Session D
  roll_back old (ok a, s) = (ok a, s)
  roll_back old (err e, s) = (err e, record s { db = old })

  -- Begin, the body, Commit, and the deferred Rollback.
  unfoldable pub transaction : {A : Type 0} → Error → Error → M D A → M D A
  unfolding call
  transaction begin commit body s =
      roll_back s.db ((do call begin; a ← body; call commit; pure a) s)

  -- Begin, a body that commits where it has changed something, and the deferred Rollback.
  unfoldable pub scoped : {A : Type 0} → Error → M D A → M D A
  unfolding call
  scoped begin body s = roll_back s.db ((do call begin; body) s)

  -- The part of a transaction that follows its first reads: what `others` have committed since then is
  -- there, and stays where this part is rolled back.
  unfoldable pub overlapped : {A : Type 0} → (D → D) → M D A → M D A
  overlapped others rest s = roll_back (others s.db) (rest (record s { db = others s.db }))

  abbrev pub judged : (D → D) → Session D → Option Error → Result (Unit {0}) × Session D
  judged f s none = (ok tt, record s { db = f s.db })
  judged f s (some e) = (err e, s)

  -- A statement that changes the tables unless it breaks a constraint, which tells the error.
  unfoldable pub statement : Error → (D → Option Error) → (D → D) → M D (Unit {0})
  unfolding call
  statement e violation f = do call e; λ s. judged f s (violation s.db)

  -- A loop over a slice, left at the first error.
  unfoldable pub for_each : {A : Type 0} → List A → (A → M D (Unit {0})) → M D (Unit {0})
  for_each [] body = pure tt
  for_each (a ∷ rest) body = do body a; for_each rest body

  -- A check on the values of the process.
  abbrev pub lift : {A : Type 0} → Result A → M D A
  lift r s = (r, s)

-- A session in which every call of the driver succeeds.
abbrev pub calm : {D : Type 0} → D → Session D
calm db = record { db = db; faults = [] }

-- A loop of calls of which none fails.
pub for_each-calm :
    {D A : Type 0} (e : Error) (xs : List A) (d : D)
    → for_each xs (λ x. call e) (calm d) ≡ (ok tt, calm d)
unfolding for_each call
for_each-calm e [] d = refl
for_each-calm e (x ∷ xs) d = for_each-calm e xs d
