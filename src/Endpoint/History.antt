-- ===== src/Endpoint/History.antt =====
-- Histories of the operations of endpoint-service/internal/endpoint/repository.go.
use hookyard.Base.{ℕ, ◌≡◌, refl, Bytes, Bool, Option, some, List, [], ◌∷◌, All, find, arith}
use hookyard.Base.Session.{M, ◌>>=◌, pure}
use hookyard.Base.Keeps.{Keeps, Keeps-bind, Keeps-pure}
use hookyard.Endpoint.Store.{
  Endpoint, Policy, Tables, CreateRequest, PatchRequest, Collation, Moment, has_id,
}
use hookyard.Endpoint.Repository.{create_endpoint, patch, delete}
use hookyard.Endpoint.Growth.{HasGrown, IsApart}
use hookyard.Endpoint.Versions.{create_endpoint-Keeps, patch-Keeps, delete-Keeps}

pub data Change : Type 0 where
  creates : ℕ → Moment → ℕ → CreateRequest → Bytes → Policy → Change
  patches : Moment → ℕ → ℕ → PatchRequest → Bytes → Option Policy → Change
  deletes : Moment → ℕ → ℕ → Change

unfoldable pub perform : Collation → Change → M Tables (Unit {0})
perform co (creates id c tenant_id req secret policy) = do
  v ← create_endpoint co id c tenant_id req secret policy
  pure tt
perform co (patches c tenant_id id req secret policy) = do
  v ← patch co c tenant_id id req secret policy
  pure tt
perform co (deletes c tenant_id id) = do v ← delete co c tenant_id id; pure tt

-- Each change with the faults that it meets.
unfoldable pub run : Collation → List (Change × List Bool) → Tables → Tables
unfolding perform
run co [] t = t
run co ((change, faults) ∷ rest) t =
    run co rest (perform co change (record { db = t; faults = faults })).1.db

-- The moment of a change.
abbrev pub moment_of : Change → Moment
moment_of (creates id c tenant_id req secret policy) = c
moment_of (patches c tenant_id id req secret policy) = c
moment_of (deletes c tenant_id id) = c

-- No change is overlapped by a transaction of others that writes the endpoint `id`.
abbrev pub AllApart : ℕ → List (Change × List Bool) → Type 0
AllApart id history = All (λ h. IsApart id (moment_of h.0).others) history

perform-Keeps :
    (co : Collation) (id : ℕ) (r : Endpoint) (change : Change)
    → IsApart id (moment_of change).others
    → Keeps (HasGrown id r) (perform co change)
unfolding perform
perform-Keeps co id r (creates key c tenant_id req secret policy) apart =
    Keeps-bind (HasGrown id r) (create_endpoint co key c tenant_id req secret policy) _
      (create_endpoint-Keeps co id r key c tenant_id req secret policy)
      (λ v. Keeps-pure (HasGrown id r) tt)
perform-Keeps co id r (patches c tenant_id key req secret policy) apart =
    Keeps-bind (HasGrown id r) (patch co c tenant_id key req secret policy) _
      (patch-Keeps co id r c tenant_id key req secret policy apart)
      (λ v. Keeps-pure (HasGrown id r) tt)
perform-Keeps co id r (deletes c tenant_id key) apart =
    Keeps-bind (HasGrown id r) (delete co c tenant_id key) _
      (delete-Keeps co id r c tenant_id key apart) (λ v. Keeps-pure (HasGrown id r) tt)

run-Keeps :
    (co : Collation) (id : ℕ) (r : Endpoint) (history : List (Change × List Bool)) (t : Tables)
    → AllApart id history
    → HasGrown id r t
    → HasGrown id r (run co history t)
unfolding run
run-Keeps co id r [] t apart h = h
run-Keeps co id r ((change, faults) ∷ rest) t apart h =
    run-Keeps co id r rest _ apart.1
      (perform-Keeps co id r change apart.0 (record { db = t; faults = faults }) h)

-- Whatever is created, patched and deleted, by any tenant and with any faults, an endpoint stays in
-- the table, its version never goes down, and once it is deleted its row never changes again, as long
-- as no transaction that writes this endpoint commits between the read and the write of another. What
-- overlaps may write all other endpoints.
pub versions_grow :
    (co : Collation) (history : List (Change × List Bool)) (t : Tables) (id : ℕ) (r : Endpoint)
    → AllApart id history
    → find (has_id id) t.endpoints ≡ some r
    → HasGrown id r (run co history t)
versions_grow co history t id r apart found =
    run-Keeps co id r history t apart
      (record { row = r; found = found; newer = omega arith; absorbed = λ gone. refl })
