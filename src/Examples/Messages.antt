-- ===== src/Examples/Messages.antt =====
-- Messages that the delivery service reads, and the scheduler's slots.
use hookyard.Base.{
  ◌/◌, ◌*◌, bytes_eq, if◌then◌else◌, ◌<◌, ◌≡◌, refl, ◌≢◌, bytes, true, false, none, some, List, [],
  ◌∷◌, ◌==◌, length, All, exists, arith,
}
use hookyard.Base.Session.{Session, err, other, pure}
use hookyard.Json.{null}
use hookyard.Webhook.Client.{responded}
use hookyard.Delivery.Model.{Tables, originals, total, Clock}
use hookyard.Delivery.Service.{handle_event_accepted}
use hookyard.Delivery.Operations.{Environment}
use hookyard.Event.Store.{OutboxRow, Notation}
use hookyard.Event.Publisher.{message_of}
use hookyard.Messaging.EventHandler.{Codec, handle}
use hookyard.Messaging.Mismatch.{envelopes_refused}
use hookyard.Messaging.Consumer.{
  Reader, Turn, handler_fails, succeeds, commit_fails, turn, consume, restart,
}
use hookyard.Messaging.Offsets.{failed_message_lost, nothing_skipped}
use hookyard.Scheduler.Loop.{Scheduler, State, begins, continues, ticks, tick, claim_limit}
use hookyard.Scheduler.Slots.{Bounded, slots_suffice}
use hookyard.Settings.{Variables, configured, configured-IsLive}

abbrev codec : Codec
codec = record { parse_uuid = λ b. some 1; raw = λ v. bytes "{}" }

abbrev notation : Notation
notation = record {
  show_uuid = λ n. n ∷ [];
  show_time = λ n. n ∷ [];
  jsonb = λ json. some json;
  timestamptz = λ t. t / 1000 * 1000;
}

abbrev row : OutboxRow
row = record {
  id = 6;
  aggregate_type = bytes "event";
  aggregate_id = 5;
  event_type = bytes "EventAccepted";
  payload = null;
  created_at = 100;
  published_at = none;
  attempts = 0;
  last_error = none;
}

abbrev clock : Clock
clock = record { now = 100; db_now = 100 }

abbrev session : Session Tables
session = record { db = record { deliveries = []; attempts = [] }; faults = [] }

envelope_refused :
    handle codec
      (λ _ _. none)
      (handle_event_accepted (λ _ _. pure []) originals (λ n. n) clock)
      17
      (message_of notation row).value
      session
    ≡ (err (other "invalid EventAccepted"), session)
envelope_refused =
    envelopes_refused codec notation row (λ _ _. none) (λ _ _. pure []) originals (λ n. n) clock 17
      session (λ e. cc)

abbrev reader : Reader
reader = record { offset = 4; committed = 4; processed = [] }

abbrev fine : List Turn
fine = succeeds ∷ []

message_lost :
    (4 < (restart (consume (handler_fails ∷ fine) reader)).offset)
    × All (λ o. o ≢ 4) (consume (handler_fails ∷ fine) reader).processed
unfolding consume turn
message_lost = failed_message_lost fine reader tt (omega arith)

message_processed :
    exists (λ x. x == 4) (consume (succeeds ∷ commit_fails ∷ []) reader).processed ≡ true
unfolding consume turn exists
message_processed =
    nothing_skipped (succeeds ∷ commit_fails ∷ []) reader 4 refl (omega arith) (omega arith)
      (omega arith)

abbrev scheduler : Scheduler
scheduler = record { concurrency = 2; batch_size = 5; lease = 30 }

abbrev world : Environment
world = record {
  index = total;
  multiplex = true;
  decrypt = λ b. some b;
  network = record {
    hmac_hex = λ key message. message;
    show_uuid = λ n. n ∷ [];
    exchange = λ req. responded 200 [] [];
  };
}

abbrev idle : State
idle = record { tables = session.db; in_flight = []; to_start = [] }

slots_enough :
    Bounded scheduler (tick scheduler true (λ _. false) clock (bytes "host-1") [] idle)
    × ((tick scheduler true (λ _. false) clock (bytes "host-1") [] idle).to_start ≢ []
        → length (tick scheduler true (λ _. false) clock (bytes "host-1") [] idle).in_flight < 2)
slots_enough =
    slots_suffice scheduler world (tick scheduler true (λ _. false) clock (bytes "host-1") [] idle)
      (continues idle _ (begins session.db)
        (ticks (λ _. false) clock (bytes "host-1") [] idle refl))

-- A concurrency of minus one, and a batch size that is no number.
abbrev variables : Variables
variables k =
    if bytes_eq k (bytes "DELIVERY_CONCURRENCY")
    then bytes "-1"
    else if bytes_eq k (bytes "DELIVERY_BATCH_SIZE")
    then bytes "many"
    else []

settings_live :
    (0 < (configured 8 variables).concurrency)
    × (0 < claim_limit (configured 8 variables) (configured 8 variables).concurrency)
settings_live = configured-IsLive 8 variables (omega arith)
