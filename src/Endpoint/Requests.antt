-- ===== src/Endpoint/Requests.antt =====
-- What the requests to endpoint-service/internal/httpapi/endpoint_handler.go cannot do.
use hookyard.Base.{ℕ, ◌≡◌, bytes, none, some, [], ◌==◌, inl, inr, Bool-cases}
use hookyard.Base.Trim.{trim_space}
use hookyard.Base.Cursor.{Texts}
use hookyard.Base.Session.{Error, Session}
use hookyard.Http.{Request, fixed, text_of, failed, Response, Handler}
use hookyard.Validation.Rules.{event_types, collect, matches_event_type}
use hookyard.Endpoint.Store.{Tables, Moment}
use hookyard.Endpoint.Service.{Service, validate_tenant}
use hookyard.Endpoint.Listing.{subscriptions_of}
use hookyard.Endpoint.Http.{
  Body, Parsers, endpoint_error, get_handler, list_handler, create_handler, patch_handler,
  delete_handler, subscriptions_handler,
}

-- The routes of endpoint-service/cmd/server/main.go with what their handlers draw.
pub data Route : Type 0 where
  post_one : ℕ → ℕ → Moment → Route
  get_list get_one get_subscribers : Route
  patch_one : ℕ → Moment → Route
  delete_one : Moment → Route

unfoldable pub serve : Parsers → Service → Texts → Route → Request → Handler Tables Body
unfolding get_handler list_handler create_handler patch_handler delete_handler subscriptions_handler
serve ps sv texts (post_one fresh_policy id c) req = create_handler ps sv fresh_policy id c req
serve ps sv texts get_list req = list_handler ps sv texts req
serve ps sv texts get_one req = get_handler ps sv req
serve ps sv texts get_subscribers req = subscriptions_handler ps req
serve ps sv texts (patch_one fresh_policy c) req = patch_handler ps sv fresh_policy c req
serve ps sv texts (delete_one c) req = delete_handler ps sv c req

abbrev unauthorized : Response Body
unauthorized = failed 401 (fixed (bytes "invalid tenant"))

-- Every route of the endpoint service answers 401 to a request whose X-Tenant-ID is no UUID, and leaves
-- the tables and the driver alone.
pub endpoint_tenant_required :
    (ps : Parsers) (sv : Service) (texts : Texts) (route : Route) (req : Request)
    (s : Session Tables)
    → ps.parse_uuid (trim_space (req.header (bytes "X-Tenant-ID"))) ≡ none
    → serve ps sv texts route req s ≡ (unauthorized, s)
unfolding serve
endpoint_tenant_required ps sv texts (post_one fresh_policy id c) req s h = rw h
endpoint_tenant_required ps sv texts get_list req s h = rw h
endpoint_tenant_required ps sv texts get_one req s h = rw h
endpoint_tenant_required ps sv texts get_subscribers req s h = rw h
endpoint_tenant_required ps sv texts (patch_one fresh_policy c) req s h = rw h
endpoint_tenant_required ps sv texts (delete_one c) req s h = rw h

-- The route GET /v1/endpoints/{id}/subscriptions names no event type, so a valid tenant is answered
-- 400, whoever is subscribed.
pub subscriptions_refused :
    (ps : Parsers) (sv : Service) (texts : Texts) (req : Request) (tenant_id : ℕ)
    (s : Session Tables)
    → ps.parse_uuid (trim_space (req.header (bytes "X-Tenant-ID"))) ≡ some tenant_id
    → req.path_value (bytes "event_type") ≡ []
    → (e : Error) × (serve ps sv texts get_subscribers req s ≡ (failed 400 (text_of e), s))
unfolding serve subscriptions_of event_types collect matches_event_type endpoint_error
    validate_tenant trim_space
subscriptions_refused ps sv texts req tenant_id s tenant no_value =
    elim (Bool-cases (tenant_id == 0)) [
      | inl nil ↦ (Error.invalid "invalid tenant id", rw (tenant, no_value, nil))
      | inr proper ↦ (Error.invalid "invalid event type", rw (tenant, no_value, proper))
    ]
