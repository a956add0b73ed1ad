-- ===== src/Examples/Keys.antt =====
-- Keys of one tenant, of which one is revoked.
use hookyard.Base.{
  All, ◌≡◌, ◌≢◌, refl, bytes, bytes_eq, Bool, false, none, some, List, [], ◌∷◌, find, exists,
  update, arith,
}
use hookyard.Base.Session.{Session, ok, query, call, exec, statement, scoped}
use hookyard.Auth.Store.{active, deleted, key_active, key_revoked, Tenant, ApiKey, Tables}
use hookyard.Auth.Repository.{
  create_key, store_key, key_violation, Verified, verify, prefix_of, before_dot, verifies, revoke,
  revoke_key, delete_tenant, retire,
}
use hookyard.Base.Trim.{trim_space, strip_prefix}
use hookyard.Auth.Service.{Draw, CreateKeyRequest, CreatedKey, check_scopes, secret_of, new_key}
use hookyard.Auth.Issue.{created_key_verifies}
use hookyard.Auth.Revocation.{IsRevoked}
use hookyard.Auth.Operations.{Functions, Operation, revokes_key, perform, run}
use hookyard.Auth.History.{revoked_for_good}
use hookyard.Auth.Deletion.{deleted_for_good}

abbrev functions : Functions
functions = record { lower = λ b. b; hash = λ b. b }

abbrev old_key : ApiKey
old_key = record {
  id = 4;
  tenant_id = 3;
  name = bytes "old";
  prefix = bytes "q";
  secret_hash = bytes "hk_live_q.r";
  scopes = [];
  status = key_revoked;
  created_at = 1;
  last_used_at = none;
  expires_at = none;
  revoked_at = some 5;
  created_by = bytes "ann";
}

abbrev live_key : ApiKey
live_key = record {
  id = 5;
  tenant_id = 3;
  name = bytes "new";
  prefix = bytes "p";
  secret_hash = bytes "hk_live_p.r";
  scopes = [];
  status = key_active;
  created_at = 6;
  last_used_at = none;
  expires_at = some 900;
  revoked_at = none;
  created_by = bytes "ann";
}

abbrev tables : Tables
tables = record {
  tenants =
      record {
        id = 3;
        name = bytes "shop";
        status = active;
        created_at = 0;
        updated_at = 0;
        deleted_at = none;
      }
      ∷ [];
  keys = old_key ∷ live_key ∷ [];
  audit_log = [];
}

old_key-IsRevoked : IsRevoked 4 tables
unfolding exists
old_key-IsRevoked = record {
  present = refl;
  all = ((λ e. refl), ((λ e. absurd (ground (arith, e))), tt));
}

abbrev history : List (Operation × List Bool)
history = (revokes_key 10 3 4 (bytes "ann"), false ∷ []) ∷ []

abbrev verified_key : Verified
verified_key = record { tenant_id = 3; key_id = 5; scopes = [] }

abbrev after : Session Tables
after =
    (verify functions.hash 20 (bytes "hk_live_p.r")
      (record { db = run functions history tables; faults = [] })).1

key_for_good : verified_key.key_id ≢ 4
unfolding verify prefix_of before_dot strip_prefix verifies query call exec find exists update run
    perform revoke revoke_key bytes_eq
key_for_good =
    revoked_for_good functions history tables 4 20 (bytes "hk_live_p.r") [] verified_key after
      old_key-IsRevoked refl

-- A second tenant that is deleted.
abbrev two_tenants : Tables
two_tenants = record tables {
  tenants =
      record {
        id = 8;
        name = bytes "kiosk";
        status = active;
        created_at = 0;
        updated_at = 0;
        deleted_at = none;
      }
      ∷ tables.tenants;
}

abbrev one_deleted : Session Tables
one_deleted = (delete_tenant 9 8 (record { db = two_tenants; faults = [] })).1

abbrev gone_tenant : Tenant
gone_tenant = record {
  id = 8;
  name = bytes "kiosk";
  status = deleted;
  created_at = 0;
  updated_at = 9;
  deleted_at = some 9;
}

tenant_for_good : verified_key.tenant_id ≢ 8
unfolding verify prefix_of before_dot strip_prefix verifies query call exec find exists update run
    perform revoke revoke_key bytes_eq delete_tenant retire scoped
tenant_for_good =
    deleted_for_good functions history 8 9 20 gone_tenant (record { db = two_tenants; faults = [] })
      one_deleted (bytes "hk_live_p.r") [] verified_key
      (verify functions.hash 20 (bytes "hk_live_p.r")
        (record { db = run functions history one_deleted.db; faults = [] })).1
      refl refl

abbrev draw : Draw
draw = record {
  tenant_id = 0;
  key_id = 6;
  now = 30;
  db_now = 31;
  random_fails = false;
  prefix = bytes "7a";
  random_text = bytes "c3";
}

abbrev request : CreateKeyRequest
request = record { name = bytes "reader"; scopes = bytes "events:read" ∷ []; expires_at = some 700 }

abbrev start : Session Tables
start = record { db = tables; faults = [] }

abbrev created : CreatedKey
created = record {
  key = record {
    id = 6;
    tenant_id = 3;
    name = bytes "reader";
    prefix = bytes "7a";
    secret_hash = secret_of draw;
    scopes = bytes "events:read" ∷ [];
    status = key_active;
    created_at = 31;
    last_used_at = none;
    expires_at = some 700;
    revoked_at = none;
    created_by = bytes "ann";
  };
  secret = secret_of draw;
}

no_dot : All (λ b. b ≢ 46) draw.prefix
no_dot = ((λ e. absurd (ground (arith, e))), ((λ e. absurd (ground (arith, e))), tt))

created_key_verified :
    (verify functions.hash 40 created.secret (record {
      db = (new_key functions.hash draw 3 request (bytes "ann") start).1.db;
      faults = [];
    })).0
    ≡ ok (some (record { tenant_id = 3; key_id = 6; scopes = bytes "events:read" ∷ [] }))
unfolding new_key check_scopes create_key store_key key_violation query call exec statement exists
    bytes_eq trim_space
created_key_verified =
    created_key_verifies functions.hash draw 3 request (bytes "ann") start
      (new_key functions.hash draw 3 request (bytes "ann") start).1 created 40 no_dot refl refl
