-- ===== src/Messaging/Mismatch.antt =====
-- The envelope that event-service/internal/outbox/publisher.go writes, read by
-- delivery-service/internal/kafka/eventHandler.go.
use hookyard.Base.{
  ℕ, ◌≡◌, refl, ◌≢◌, Bytes, Option, some, List, [], ◌∷◌, bytes_eq, decimal, ap, ◌∙◌,
}
use hookyard.Base.Session.{Session, M, other, err, ◌>>=◌}
use hookyard.Json.{lookup}
use hookyard.Delivery.Model.{EventAccepted, EndpointSnapshotWithId, Tables, UniqueIndex, Clock}
use hookyard.Delivery.Service.{handle_event_accepted}
use hookyard.Event.Store.{OutboxRow, Notation}
use hookyard.Event.Publisher.{message_of}
use hookyard.Messaging.EventHandler.{
  Codec, decode_event, FetchedEvent, with_payload, handle_decoded, handle,
}

-- What the handler reads in an envelope: neither of the identifiers.
abbrev read_envelope : Codec → OutboxRow → EventAccepted
read_envelope codec row = record {
  message_id = [];
  event_id = 0;
  tenant_id = 0;
  event_type = row.event_type;
  payload = codec.raw row.payload;
}

decode_event-envelope :
    (codec : Codec) (n : Notation) (row : OutboxRow)
    → decode_event codec (message_of n row).value ≡ some (read_envelope codec row)
unfolding decode_event message_of lookup bytes_eq
decode_event-envelope codec n row = refl

module _ (endpoints : ℕ → Bytes → M Tables (List EndpointSnapshotWithId)) (index : UniqueIndex)
    (fresh : ℕ → ℕ) (c : Clock) where
  refused :
      (e : EventAccepted) (s : Session Tables)
      → e.event_id ≡ 0
      → handle_event_accepted endpoints index fresh c e s ≡ (err (other "invalid EventAccepted"), s)
  unfolding handle_event_accepted
  refused e s none_given = rw none_given refl

  refused_full :
      (fetch : ℕ → ℕ → Option FetchedEvent) (e : EventAccepted) (p : Bytes) (s : Session Tables)
      → p ≢ []
      → e.event_id ≡ 0
      → (do
        full ← with_payload fetch (record e { payload = p })
        handle_event_accepted endpoints index fresh c full)
          s
        ≡ (err (other "invalid EventAccepted"), s)
  refused_full fetch e [] s some_raw none_given = absurd (some_raw refl)
  refused_full fetch e (b ∷ bs) s some_raw none_given =
      refused (record e { payload = b ∷ bs }) s none_given

-- Whatever the event service publishes of its outbox, the handler of the delivery service refuses:
-- the identifiers stand inside the envelope's payload, and it looks for them beside it. No table
-- changes. The hypothesis is that a JSON value is not written as an empty text.
pub envelopes_refused :
    (codec : Codec) (n : Notation) (row : OutboxRow) (fetch : ℕ → ℕ → Option FetchedEvent)
    (endpoints : ℕ → Bytes → M Tables (List EndpointSnapshotWithId)) (index : UniqueIndex)
    (fresh : ℕ → ℕ) (c : Clock) (offset : ℕ) (s : Session Tables)
    → codec.raw row.payload ≢ []
    → handle codec fetch
        (handle_event_accepted endpoints index fresh c)
        offset
        (message_of n row).value
        s
      ≡ (err (other "invalid EventAccepted"), s)
unfolding handle
envelopes_refused codec n row fetch endpoints index fresh c offset s some_raw =
    ap (λ o. handle_decoded fetch (handle_event_accepted endpoints index fresh c) offset o s)
      (decode_event-envelope codec n row)
    ∙ refused_full endpoints index fresh c fetch
        (record (read_envelope codec row) { message_id = decimal offset }) (codec.raw row.payload) s
        some_raw refl
