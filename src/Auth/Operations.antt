-- ===== src/Auth/Operations.antt =====
-- What can happen to the tables of the auth service, as one step function: the methods of
-- auth-service/internal/repository/repository.go that write.
use hookyard.Base.{ℕ, Bytes, Option, List, [], ◌∷◌, Bool}
use hookyard.Base.Session.{M, ◌>>=◌, pure}
use hookyard.Auth.Store.{Tables}
use hookyard.Auth.Repository.{
  create_tenant, update_tenant, delete_tenant, create_key, revoke_key, verify,
}

-- What PostgreSQL and the standard library do.
pub record Functions : Type 0 where
  pub lower : Bytes → Bytes
  pub hash : Bytes → Bytes

pub data Operation : Type 0 where
  creates_tenant : ℕ → ℕ → Bytes → Operation
  updates_tenant : ℕ → ℕ → Option Bytes → Option Bytes → Operation
  deletes_tenant : ℕ → ℕ → Operation
  creates_key : ℕ → ℕ → ℕ → Bytes → Bytes → Bytes → List Bytes → Option ℕ → Bytes → Operation
  revokes_key : ℕ → ℕ → ℕ → Bytes → Operation
  verifies_token : ℕ → Bytes → Operation

unfoldable pub perform : Functions → Operation → M Tables (Unit {0})
perform fs (creates_tenant id now name) = do t ← create_tenant fs.lower id now name; pure tt
perform fs (updates_tenant now id name status) = do
  t ← update_tenant fs.lower now id name status
  pure tt
perform fs (deletes_tenant now id) = do t ← delete_tenant now id; pure tt
perform fs (creates_key id now tenant_id name secret prefix scopes expires actor) = do
  k ← create_key fs.hash id now tenant_id name secret prefix scopes expires actor
  pure tt
perform fs (revokes_key now tenant_id id actor) = revoke_key now tenant_id id actor
perform fs (verifies_token now token) = do v ← verify fs.hash now token; pure tt

-- Each operation with the faults that it meets.
unfoldable pub run : Functions → List (Operation × List Bool) → Tables → Tables
unfolding perform
run fs [] t = t
run fs ((op, faults) ∷ rest) t =
    run fs rest (perform fs op (record { db = t; faults = faults })).1.db
