-- ===== src/Auth/Http.antt =====
-- auth-service/internal/httpapi/handler.go. uuid.Parse and how encoding/json reads a body are
-- parameters. The timeout of a request is not modelled: a call that it ends is one that fails.
use hookyard.Base.{
  ℕ, Bytes, bytes, bytes_eq, Bool, not, ◌||◌, Option, none, some, List, if◌then◌else◌, is_empty,
}
use hookyard.Base.Trim.{trim_prefix}
use hookyard.Base.Session.{Error, not_found, conflict}
use hookyard.Http.{
  Request, fixed, text_of, Response, failed, answered, no_content, Handler, respond, given, calls,
}
use hookyard.Auth.Store.{Tenant, Tables}
use hookyard.Auth.Repository.{
  Verified, get_tenant, update_tenant, delete_tenant, revoke_key, verify,
}
use hookyard.Auth.Listing.{KeyView, list_tenants, list_keys}
use hookyard.Auth.Service.{Draw, CreateKeyRequest, CreatedKey, new_key, create_tenant_and_key}

pub record CreateTenantRequest : Type 0 where
  pub name : Bytes
  pub key_name : Bytes

pub record UpdateTenantRequest : Type 0 where
  pub name : Option Bytes
  pub status : Option Bytes

pub data Body : Type 0 where
  healthy : Body
  -- The answer to a key that is not valid has no fields of a key.
  verified : Option Verified → Body
  created : Tenant → CreatedKey → Body
  tenants : List Tenant → Body
  tenant : Tenant → Body
  key : CreatedKey → Body
  keys : List KeyView → Body

-- The configuration of the handler.
pub record Secrets : Type 0 where
  pub bootstrap : Bytes
  pub internal_token : Bytes

pub record Parsers : Type 0 where
  pub parse_uuid : Bytes → Option ℕ
  pub decode_verify : Bytes → Option Bytes
  pub decode_tenant : Bytes → Option CreateTenantRequest
  pub decode_update : Bytes → Option UpdateTenantRequest
  pub decode_key : Bytes → Option CreateKeyRequest

abbrev pub error_of : ℕ → Bytes → Response Body
error_of status m = failed status (fixed m)

abbrev pub internal_error : Error → Response Body
internal_error e = error_of 500 (bytes "internal error")

abbrev pub unauthorized : Response Body
unauthorized = error_of 401 (bytes "unauthorized")

abbrev pub actor_of : Request → Bytes
actor_of req = req.header (bytes "X-Admin-Actor")

-- Whether a secret is configured, and the one that was sent equals it (constantEqual).
unfoldable pub admits : Bytes → Bytes → Bool
admits sent configured = not (is_empty configured || not (bytes_eq sent configured))

-- admin
unfoldable pub admin : Secrets → Request → Handler Tables Body → Handler Tables Body
unfolding admits
admin secrets req next =
    if admits (trim_prefix (bytes "Bearer ") (req.header (bytes "Authorization"))) secrets.bootstrap
    then next
    else respond unauthorized

abbrev pub create_tenant_error : Error → Response Body
create_tenant_error conflict = failed 409 (text_of conflict)
create_tenant_error e = failed 400 (text_of e)

abbrev pub tenant_error : Error → Response Body
tenant_error not_found = error_of 404 (bytes "tenant not found")
tenant_error e = internal_error e

abbrev pub update_error : Error → Response Body
update_error not_found = error_of 404 (bytes "tenant not found")
update_error conflict = error_of 409 (bytes "tenant name already exists")
update_error e = failed 400 (text_of e)

abbrev pub create_key_error : Error → Response Body
create_key_error not_found = failed 404 (text_of not_found)
create_key_error e = failed 400 (text_of e)

abbrev pub revoke_error : Error → Response Body
revoke_error not_found = error_of 404 (bytes "key not found")
revoke_error e = internal_error e

abbrev pub bad_json : Response Body
bad_json = error_of 400 (bytes "invalid JSON")

abbrev pub non_empty : Option Bytes → Option Bytes
non_empty none = none
non_empty (some b) = if is_empty b then none else some b

module _ (ps : Parsers) where
  abbrev pub for_tenant : Request → (ℕ → Handler Tables Body) → Handler Tables Body
  for_tenant req =
      given (ps.parse_uuid (req.path_value (bytes "tenantID")))
        (error_of 400 (bytes "invalid tenantID"))

  -- The verification of a key, for a caller with the internal token; `hash` is SHA-256, `now` the clock
  -- of the database.
  unfoldable pub verify_key : (Bytes → Bytes) → ℕ → Request → Handler Tables Body
  verify_key hash now req =
      given (non_empty (ps.decode_verify req.body)) (error_of 400 (bytes "invalid request"))
        λ token. calls (verify hash now token) internal_error (λ v. answered 200 (verified v))

  unfoldable pub verify_handler : Secrets → (Bytes → Bytes) → ℕ → Request → Handler Tables Body
  unfolding admits verify_key
  verify_handler secrets hash now req =
      if admits (req.header (bytes "X-Auth-Internal-Token")) secrets.internal_token
      then verify_key hash now req
      else respond unauthorized

  unfoldable pub create_tenant_handler :
      (Bytes → Bytes) → (Bytes → Bytes) → Draw → Request → Handler Tables Body
  create_tenant_handler lower hash draw req = given (ps.decode_tenant req.body) bad_json λ body.
      calls (create_tenant_and_key lower hash draw body.name body.key_name (actor_of req))
        create_tenant_error (λ r. answered 201 (created r.0 r.1))

  unfoldable pub list_tenants_handler : Request → Handler Tables Body
  unfolding list_tenants
  list_tenants_handler req = calls list_tenants internal_error (λ ts. answered 200 (tenants ts))

  unfoldable pub get_tenant_handler : Request → Handler Tables Body
  get_tenant_handler req =
      for_tenant req λ id. calls (get_tenant id) tenant_error (λ t. answered 200 (tenant t))

  unfoldable pub update_tenant_handler : (Bytes → Bytes) → ℕ → Request → Handler Tables Body
  update_tenant_handler lower now req = for_tenant req λ id.
      given (ps.decode_update req.body) bad_json λ body.
        calls (update_tenant lower now id body.name body.status) update_error
          (λ t. answered 200 (tenant t))

  unfoldable pub delete_tenant_handler : ℕ → Request → Handler Tables Body
  delete_tenant_handler now req =
      for_tenant req λ id. calls (delete_tenant now id) tenant_error (λ t. answered 200 (tenant t))

  unfoldable pub create_key_handler : (Bytes → Bytes) → Draw → Request → Handler Tables Body
  create_key_handler hash draw req = for_tenant req λ id.
      given (ps.decode_key req.body) bad_json λ body.
        calls (new_key hash draw id body (actor_of req)) create_key_error
          (λ k. answered 201 (key k))

  unfoldable pub list_keys_handler : Request → Handler Tables Body
  unfolding list_keys
  list_keys_handler req =
      for_tenant req λ id. calls (list_keys id) internal_error (λ ks. answered 200 (keys ks))

  abbrev pub both : Option ℕ → Option ℕ → Option (ℕ × ℕ)
  both (some a) (some b) = some (a, b)
  both _ _ = none

  unfoldable pub revoke_key_handler : ℕ → Request → Handler Tables Body
  revoke_key_handler now req =
      given
        (both (ps.parse_uuid (req.path_value (bytes "tenantID")))
          (ps.parse_uuid (req.path_value (bytes "keyID"))))
        (error_of 400 (bytes "invalid ID"))
        λ ids. calls (revoke_key now ids.0 ids.1 (actor_of req)) revoke_error (λ u. no_content)
