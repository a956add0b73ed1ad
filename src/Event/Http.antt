-- ===== src/Event/Http.antt =====
-- event-service/internal/httpapi/handler.go. uuid.Parse and how encoding/json reads a body are
-- parameters.
use hookyard.Base.{ℕ, Bytes, bytes, Option, is_empty, if◌then◌else◌}
use hookyard.Base.Trim.{trim_prefix}
use hookyard.Base.Session.{Error}
use hookyard.Http.{Request, fixed, text_of, Response, failed, answered, Handler, given, calls}
use hookyard.Event.Store.{Event, PublishRequest, Tables, Notation, Draw, get_event, publish}

pub data Body : Type 0 where
  accepted : ℕ → Body
  stored : Event → Body

-- The first value of a body, if it is one; what follows it is not read.
pub record Parsers : Type 0 where
  pub parse_uuid : Bytes → Option ℕ
  pub decode_publish : Bytes → Option PublishRequest

abbrev pub with_header_key : Request → PublishRequest → PublishRequest
with_header_key req body =
    if is_empty body.idempotency_key
    then record body { idempotency_key = req.header (bytes "Idempotency-Key") }
    else body

abbrev pub publish_error : Error → Response Body
publish_error (Error.invalid m) = failed 400 (text_of (Error.invalid m))
publish_error _ = failed 500 (fixed (bytes "failed to publish event"))

module _ (ps : Parsers) where
  -- tenantIDFromRequest
  abbrev pub for_tenant : Request → (ℕ → Handler Tables Body) → Handler Tables Body
  for_tenant req =
      given (ps.parse_uuid (req.header (bytes "X-Tenant-ID")))
        (failed 401 (fixed (bytes "invalid tenant")))

  unfoldable pub publish_event : Notation → Draw → Request → Handler Tables Body
  publish_event n draw req = for_tenant req λ tenant_id.
      given (ps.decode_publish req.body) (failed 400 (fixed (bytes "invalid JSON"))) λ body.
        calls (publish n draw tenant_id (with_header_key req body)) publish_error
          (λ e. answered 202 (accepted e.id))

  -- Every error is told as a missing event.
  unfoldable pub get_handler : Request → Handler Tables Body
  get_handler req = for_tenant req λ tenant_id.
      given (ps.parse_uuid (trim_prefix (bytes "/v1/events/") req.path))
        (failed 400 (fixed (bytes "invalid event ID")))
        λ id.
          calls (get_event tenant_id id) (λ e. failed 404 (fixed (bytes "event not found")))
            (λ e. answered 200 (stored e))
