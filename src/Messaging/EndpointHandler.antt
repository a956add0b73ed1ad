-- ===== src/Messaging/EndpointHandler.antt =====
-- delivery-service/internal/kafka/endpointHandler.go. What encoding/json makes of the value of a
-- message is a parameter.
use hookyard.Base.{Option, none, some}
use hookyard.Base.Session.{other, M, throw}
use hookyard.Projection.Store.{EndpointChanged, Projection, upsert}

-- The change that is handed on: a copy, field by field.
abbrev pub copy : EndpointChanged → EndpointChanged
copy e = record {
  message_id = e.message_id;
  tenant_id = e.tenant_id;
  endpoint_id = e.endpoint_id;
  name = e.name;
  url = e.url;
  secret_encrypted = e.secret_encrypted;
  status = e.status;
  connect_timeout_ms = e.connect_timeout_ms;
  request_timeout_ms = e.request_timeout_ms;
  retry_policy = e.retry_policy;
  version = e.version;
  updated_at = e.updated_at;
  event_types = e.event_types;
}

abbrev pub handle_decoded : Option EndpointChanged → M Projection (Unit {0})
handle_decoded none = throw (other "decode Kafka message")
handle_decoded (some e) = upsert (copy e)

-- EndpointHandler.Handle
unfoldable pub handle :
    {Value : Type 0} → (Value → Option EndpointChanged) → Value → M Projection (Unit {0})
handle decode value = handle_decoded (decode value)
