-- ===== src/Messaging/EventHandler.antt =====
-- delivery-service/internal/kafka/eventHandler.go with the decoder of consumer.go, and
-- delivery-service/internal/eventClient/Client.go.
use hookyard.Base.{ℕ, Bytes, bytes, Option, none, some, ◌++◌, [], ◌∷◌, ◌==◌, if◌then◌else◌, decimal}
use hookyard.Base.Session.{other, M, pure, throw, ◌>>=◌}
use hookyard.Json.{Json, null, text, object, Fields, end, lookup}
use hookyard.Delivery.Model.{EventAccepted, Tables}

-- What the decoder uses of package uuid, and the bytes of a raw value.
pub record Codec : Type 0 where
  pub parse_uuid : Bytes → Option ℕ
  pub raw : Json → Bytes

-- A field of type string, uuid.UUID or json.RawMessage. A missing field and, but for a raw message,
-- a null leave the zero value; a value of another type is an error.
abbrev pub string_field : Option Json → Option Bytes
string_field none = some []
string_field (some null) = some []
string_field (some (text b)) = some b
string_field (some (object fs)) = none

abbrev pub uuid_field : Codec → Option Json → Option ℕ
uuid_field codec none = some 0
uuid_field codec (some null) = some 0
uuid_field codec (some (text b)) = codec.parse_uuid b
uuid_field codec (some (object fs)) = none

abbrev pub raw_field : Codec → Option Json → Bytes
raw_field codec none = []
raw_field codec (some v) = codec.raw v

abbrev pub event_accepted :
    Option Bytes → Option ℕ → Option ℕ → Option Bytes → Bytes → Option EventAccepted
event_accepted (some m) (some e) (some t) (some ty) p =
    some (record { message_id = m; event_id = e; tenant_id = t; event_type = ty; payload = p })
event_accepted _ _ _ _ p = none

abbrev pub decode_fields : Codec → Fields → Option EventAccepted
decode_fields codec fs =
    event_accepted (string_field (lookup (bytes "message_id") fs))
      (uuid_field codec (lookup (bytes "event_id") fs))
      (uuid_field codec (lookup (bytes "tenant_id") fs))
      (string_field (lookup (bytes "event_type") fs))
      (raw_field codec (lookup (bytes "payload") fs))

-- DecodeEnvelope at type delivery.EventAccepted.
unfoldable pub decode_event : Codec → Json → Option EventAccepted
decode_event codec null = decode_fields codec end
decode_event codec (text b) = none
decode_event codec (object fs) = decode_fields codec fs

-- What Client.Get decodes, of which the handler reads two fields.
pub record FetchedEvent : Type 0 where
  pub id : ℕ
  pub tenant_id : ℕ
  pub type : Bytes
  pub raw_data : Bytes

abbrev pub fetched_event : Option ℕ → Option ℕ → Option Bytes → Bytes → Option FetchedEvent
fetched_event (some i) (some t) (some ty) d =
    some (record { id = i; tenant_id = t; type = ty; raw_data = d })
fetched_event _ _ _ d = none

abbrev pub decode_fetched : Codec → Fields → Option FetchedEvent
decode_fetched codec fs =
    fetched_event (uuid_field codec (lookup (bytes "id") fs))
      (uuid_field codec (lookup (bytes "tenant_id") fs)) (string_field (lookup (bytes "type") fs))
      (raw_field codec (lookup (bytes "data") fs))

-- The status and the body of a response, or no response.
abbrev pub Response : Type 0
Response = Option (ℕ × Json)

abbrev pub read_body : Codec → Json → Option FetchedEvent
read_body codec null = decode_fetched codec end
read_body codec (text b) = none
read_body codec (object fs) = decode_fetched codec fs

abbrev pub read_response : Codec → Response → Option FetchedEvent
read_response codec none = none
read_response codec (some (status, body)) = if status == 200 then read_body codec body else none

-- Client.Get: `http` answers a GET of a URL with an X-Tenant-ID header.
unfoldable pub get :
    Codec → (ℕ → Bytes) → Bytes → (Bytes → Bytes → Response) → ℕ → ℕ → Option FetchedEvent
get codec show_uuid base_url http tenant_id event_id =
    read_response codec
      (http (base_url ++ bytes "/v1/events/" ++ show_uuid event_id) (show_uuid tenant_id))

abbrev pub with_message_id : ℕ → EventAccepted → EventAccepted
with_message_id offset e = elim e.message_id [
  | [] ↦ record e { message_id = decimal offset }
  | b ∷ bs ↦ e
]

abbrev pub use_fetched : EventAccepted → Option FetchedEvent → M Tables EventAccepted
use_fetched e none = throw (other "event service")
use_fetched e (some f) = pure (record e { payload = f.raw_data; event_type = f.type })

-- The payload is fetched when the message has none.
abbrev pub with_payload : (ℕ → ℕ → Option FetchedEvent) → EventAccepted → M Tables EventAccepted
with_payload fetch e = elim e.payload [
  | [] ↦ use_fetched e (fetch e.tenant_id e.event_id)
  | b ∷ bs ↦ pure e
]

abbrev pub handle_decoded :
    (ℕ → ℕ → Option FetchedEvent)
    → (EventAccepted → M Tables (Unit {0}))
    → ℕ
    → Option EventAccepted
    → M Tables (Unit {0})
handle_decoded fetch accept offset none = throw (other "decode Kafka message")
handle_decoded fetch accept offset (some e) = do
  full ← with_payload fetch (with_message_id offset e)
  accept full

-- EventHandler.Handle of the message at `offset`, given HandleEventAccepted.
unfoldable pub handle :
    Codec
    → (ℕ → ℕ → Option FetchedEvent)
    → (EventAccepted → M Tables (Unit {0}))
    → ℕ
    → Json
    → M Tables (Unit {0})
handle codec fetch accept offset value =
    handle_decoded fetch accept offset (decode_event codec value)
