-- ===== src/Messaging/Message.antt =====
-- A message of Kafka: as endpoint-service/internal/kafka/publisher.go writes it for a row of the
-- outbox, and MessageID of delivery-service/internal/kafka/message.go.
use hookyard.Base.{
  ℕ, ◌≡◌, refl, Bytes, bytes, bytes_eq, Bool, List, [], ◌∷◌, ◌++◌, if◌then◌else◌, decimal,
}
use hookyard.Base.Trim.{to_upper}
use hookyard.Outbox.Relay.{Row}

pub record Message : Type 0 where
  pub topic : Bytes
  pub partition : ℕ
  pub offset : ℕ
  pub key : Bytes
  pub value : Bytes
  pub headers : List (Bytes × Bytes)

-- What Publish hands to WriteMessages; the broker chooses the partition and the offset.
unfoldable pub message_of : (ℕ → Bytes) → ℕ → ℕ → Row → Message
message_of show_uuid partition offset m = record {
  topic = m.topic;
  partition = partition;
  offset = offset;
  key = m.key;
  value = m.payload;
  headers =
      (bytes "content-type", bytes "application/json") ∷ (bytes "message-id", show_uuid m.id) ∷ [];
}

-- strings.EqualFold of ASCII texts.
abbrev pub equal_fold : Bytes → Bytes → Bool
equal_fold a b = bytes_eq (to_upper a) (to_upper b)

unfoldable pub header_or : Bytes → List (Bytes × Bytes) → Bytes
header_or default [] = default
header_or default ((key, value) ∷ rest) =
    let later = header_or default rest in
    if equal_fold key (bytes "message-id") then value else later

unfoldable pub message_id : Message → Bytes
unfolding header_or
message_id msg =
    header_or (msg.topic ++ bytes ":" ++ decimal msg.partition ++ bytes ":" ++ decimal msg.offset)
      msg.headers

-- A message of the endpoint service carries the identifier of its row.
pub message_id-published :
    (show_uuid : ℕ → Bytes) (partition offset : ℕ) (m : Row)
    → message_id (message_of show_uuid partition offset m) ≡ show_uuid m.id
unfolding message_id message_of to_upper bytes_eq
message_id-published show_uuid partition offset m = refl
