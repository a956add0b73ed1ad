-- ===== src/Endpoint/Http.antt =====
-- endpoint-service/internal/httpapi/endpoint_handler.go and handler_util.go. uuid.Parse is a
-- parameter, and so is how encoding/json reads the values of a body.
use hookyard.Base.{
  ℕ, Bytes, bytes, Bool, true, false, not, ◌||◌, Option, none, some, List, [], ◌∷◌, map, ltb,
  if◌then◌else◌, is_empty,
}
use hookyard.Base.Int.{ℤ, pos, negsuc}
use hookyard.Base.Atoi.{atoi}
use hookyard.Base.Trim.{trim_space}
use hookyard.Base.Cursor.{Texts}
use hookyard.Base.Paging.{Page}
use hookyard.Base.Session.{Error, not_found, conflict, other}
use hookyard.Http.{
  Request, fixed, text_of, Response, failed, answered, no_content, Handler, respond, given, calls,
}
use hookyard.Endpoint.Store.{Status, View, Policy, Tables, CreateRequest, PatchRequest, Moment}
use hookyard.Endpoint.Service.{Service, create, patch_endpoint, delete_endpoint}
use hookyard.Endpoint.Listing.{get, list_endpoints, subscriptions_of}

-- The map of PublicView.
pub record PublicView : Type 0 where
  pub endpoint_id : ℕ
  pub tenant_id : ℕ
  pub name : Bytes
  pub url : Bytes
  pub status : Status
  pub connect_timeout_ms : ℕ
  pub request_timeout_ms : ℕ
  pub retry_policy_id : ℕ
  pub version : ℕ
  pub event_types : List Bytes
  pub has_secret : Bool
  pub created_at : ℕ
  pub updated_at : ℕ
  pub deleted_at : Option ℕ

abbrev pub public_view : View → PublicView
public_view v = record {
  endpoint_id = v.row.id;
  tenant_id = v.row.tenant_id;
  name = v.row.name;
  url = v.row.url;
  status = v.row.status;
  connect_timeout_ms = v.row.connect_timeout_ms;
  request_timeout_ms = v.row.request_timeout_ms;
  retry_policy_id = v.row.retry_policy_id;
  version = v.row.version;
  event_types = v.event_types;
  has_secret = not (is_empty v.row.secret_encrypted);
  created_at = v.row.created_at;
  updated_at = v.row.updated_at;
  deleted_at = v.row.deleted_at;
}

pub data Body : Type 0 where
  created : PublicView → Body
  -- An endpoint with its retry policy.
  detail : PublicView → Policy → Body
  endpoints : List PublicView → Bytes → Body
  -- The identifiers and URLs of subscribers.
  subscribers : List (ℕ × Bytes) → Body

-- writeEndpointError
unfoldable pub endpoint_error : Error → Response Body
endpoint_error not_found = failed 404 (fixed (bytes "endpoint not found"))
endpoint_error conflict = failed 409 (text_of conflict)
endpoint_error (Error.invalid m) = failed 400 (text_of (Error.invalid m))
endpoint_error (other m) = failed 500 (fixed (bytes "internal server error"))

-- What a Decoder, which refuses unknown fields and more than a megabyte, makes of a body.
pub data Decoded (A : Type 0) : Type 0 where
  end_of_input : Decoded A
  malformed : Decoded A
  -- A value, and whether the input ends behind it.
  value : A → Bool → Decoded A

-- decodeJSON with the rest of the handler.
unfoldable pub decode_json :
    {A : Type 0} → Decoded A → (A → Handler Tables Body) → Handler Tables Body
decode_json end_of_input rest = respond (failed 400 (fixed (bytes "request body is required")))
decode_json malformed rest = respond (failed 400 (fixed (bytes "invalid JSON body")))
decode_json (value a false) rest =
    respond (failed 400 (fixed (bytes "request body must contain a single JSON object")))
decode_json (value a true) rest = rest a

abbrev pub get_error : Error → Response Body
get_error not_found = failed 404 (fixed (bytes "endpoint not found"))
get_error _ = failed 500 (fixed (bytes "failed to get endpoint"))

abbrev pub detail_of : View × Policy → Response Body
detail_of (v, p) = answered 200 (detail (public_view v) p)

abbrev pub in_range : ℤ → Bool
in_range (pos n) = not (ltb n 1 || ltb 100 n)
in_range (negsuc n) = false

abbrev pub checked_limit : Option ℤ → Option ℤ
checked_limit none = none
checked_limit (some n) = if in_range n then some n else none

-- The limit of List, none where it is refused.
unfoldable pub limit_of : Bytes → Option ℤ
limit_of [] = some (pos 50)
limit_of (b ∷ bs) = checked_limit (atoi (b ∷ bs))

abbrev pub page_response : Page View → Response Body
page_response page = answered 200 (endpoints (map public_view page.items) page.next_cursor)

abbrev pub subscriber_list : List View → Response Body
subscriber_list vs = answered 200 (subscribers (map (λ v. (v.row.id, v.row.url)) vs))

-- What stands outside the service: uuid.Parse and the decoding of bodies.
pub record Parsers : Type 0 where
  pub parse_uuid : Bytes → Option ℕ
  pub decode_create : Bytes → Decoded CreateRequest
  pub decode_patch : Bytes → Decoded PatchRequest

module _ (ps : Parsers) where
  -- tenantID and parseID, and the responses where they fail.
  abbrev pub for_tenant : Request → (ℕ → Handler Tables Body) → Handler Tables Body
  for_tenant req =
      given (ps.parse_uuid (trim_space (req.header (bytes "X-Tenant-ID"))))
        (failed 401 (fixed (bytes "invalid tenant")))

  abbrev pub for_id : Request → (ℕ → Handler Tables Body) → Handler Tables Body
  for_id req =
      given (ps.parse_uuid (req.path_value (bytes "id")))
        (failed 400 (fixed (bytes "invalid endpoint ID")))

  module _ (sv : Service) where
    unfoldable pub get_handler : Request → Handler Tables Body
    get_handler req =
        for_tenant req
          λ tenant_id. for_id req λ id. calls (get sv.collation tenant_id id) get_error detail_of

    unfoldable pub list_handler : Texts → Request → Handler Tables Body
    list_handler texts req = for_tenant req λ tenant_id.
        given (limit_of (req.parameter (bytes "limit")))
          (failed 400 (fixed (bytes "limit must be between 1 and 100")))
          λ limit.
            calls
              (list_endpoints sv.collation texts tenant_id (record {
                limit = limit;
                cursor = req.parameter (bytes "cursor");
                status = req.parameter (bytes "status");
              }))
              endpoint_error page_response

    -- `fresh_policy` and `id` are what the database and uuid.New() draw.
    unfoldable pub create_handler : ℕ → ℕ → Moment → Request → Handler Tables Body
    unfolding decode_json
    create_handler fresh_policy id c req = for_tenant req λ tenant_id.
        decode_json (ps.decode_create req.body) λ body.
          calls (create sv fresh_policy id c tenant_id body) endpoint_error
            (λ v. answered 201 (created (public_view v)))

    unfoldable pub patch_handler : ℕ → Moment → Request → Handler Tables Body
    unfolding decode_json
    patch_handler fresh_policy c req = for_tenant req λ tenant_id. for_id req λ id.
        decode_json (ps.decode_patch req.body) λ body.
          calls (patch_endpoint sv fresh_policy c tenant_id id body) endpoint_error detail_of

    unfoldable pub delete_handler : Moment → Request → Handler Tables Body
    delete_handler c req = for_tenant req λ tenant_id.
        for_id req λ id. calls (delete_endpoint sv c tenant_id id) endpoint_error (λ r. no_content)

  -- decodePath changes nothing.
  unfoldable pub subscriptions_handler : Request → Handler Tables Body
  subscriptions_handler req = for_tenant req λ tenant_id.
      calls (subscriptions_of tenant_id (req.path_value (bytes "event_type"))) endpoint_error
        subscriber_list
