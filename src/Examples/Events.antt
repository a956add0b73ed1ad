-- ===== src/Examples/Events.antt =====
-- Events accepted and published, and the scheduler's slots.
use hookyard.Base.{
  ℕ, ◌/◌, ◌*◌, not, ◌==◌, ◌≡◌, refl, Bytes, bytes, bytes_eq, Bool, true, false, Option, none, some,
  if◌then◌else◌, [], ◌∷◌, ◌++◌, find, exists, select, order_by,
}
use hookyard.Base.Session.{Session, calm, call, scoped, query, attempt, exec, for_each}
use hookyard.Event.Store.{
  Event, PublishRequest, Tables, Notation, Draw, new_event, outbox_row, insert_event, insert_key,
  insert_outbox, get_event, insert_all, create_event, publish,
}
use hookyard.Event.Publisher.{pending, Wire, settle_row, settle_rows, publish_rows, publish_batch}
use hookyard.Event.Acceptance.{Accepted, create_event-Accepted}
use hookyard.Event.Idempotency.{create_event-idempotent}
use hookyard.Event.Served.{IsStored, published_event_served}
use hookyard.Event.Http.{Body, Parsers, publish_event, get_handler}
use hookyard.Http.{Request, answered}
use hookyard.Base.Trim.{strip_prefix}
use hookyard.Event.AtLeastOnce.{AllSent, publish_batch-AllSent}
use hookyard.Event.Batches.{messages, publish_batch-messages}

abbrev notation : Notation
notation = record {
  show_uuid = λ n. n ∷ [];
  show_time = λ n. n ∷ [];
  jsonb = λ json. some (select (λ b. not (b == 32)) json);
  timestamptz = λ t. t / 1000 * 1000;
}

abbrev draw : Draw
draw = record { event_id = 5; outbox_id = 6; db_now = 100 }

abbrev other_draw : Draw
other_draw = record { event_id = 8; outbox_id = 9; db_now = 200 }

abbrev request : PublishRequest
request = record {
  type = bytes "order.paid";
  idempotency_key = bytes "k";
  content = bytes "{ }";
  occurred_at = some 1_234_567;
  source = none;
  metadata = [];
}

abbrev repeated : PublishRequest
repeated = record request { content = bytes "[]" }

abbrev empty : Session Tables
empty = record { db = record { events = []; idempotency = []; outbox = [] }; faults = [] }

abbrev event : Event
event = new_event draw request 3

abbrev stored : Event
stored = record event { payload = bytes "{}"; occurred_at = some 1_234_000; created_at = 100 }

abbrev full : Session Tables
full = record {
  db = record {
    events = stored ∷ [];
    idempotency = record { tenant_id = 3; idempotency_key = bytes "k"; event_id = 5 } ∷ [];
    outbox = outbox_row notation draw event ∷ [];
  };
  faults = [];
}

event_accepted : Accepted notation draw request 3 empty.db event full.db
unfolding create_event scoped call query find attempt insert_all insert_event insert_key
    insert_outbox exists select
event_accepted = create_event-Accepted notation draw request 3 empty full event refl

event_accepted_again : (stored.id ≡ event.id) × (full.db ≡ full.db)
unfolding create_event scoped call query find attempt insert_all insert_event insert_key
    insert_outbox exists get_event bytes_eq select
event_accepted_again =
    create_event-idempotent notation notation draw other_draw request repeated 3 empty full full
      full event stored refl refl refl refl

abbrev wire : Session Wire
wire = record { db = record { tables = full.db; sent = [] }; faults = [] }

abbrev lost_commit : Session Wire
lost_commit = record wire { faults = false ∷ false ∷ false ∷ false ∷ true ∷ [] }

abbrev unlocked : ℕ → Bool
unlocked id = false

abbrev takes_all : ℕ → Option Bytes
takes_all id = none

batch_undone :
    AllSent
      (publish_batch notation unlocked takes_all 300 lost_commit).1.db.sent
      (publish_batch notation unlocked takes_all 300 lost_commit).1.db.tables.outbox
batch_undone =
    publish_batch-AllSent notation unlocked takes_all 300 lost_commit ((λ marked. cc), tt)

batch_written :
    (publish_batch notation unlocked takes_all 300 wire).1.db.sent
    ≡ [] ++ messages notation 300 takes_all (pending unlocked full.db.outbox)
unfolding publish_batch publish_rows call query for_each order_by select settle_rows settle_row exec
batch_written =
    publish_batch-messages notation unlocked takes_all 300 wire
      (publish_batch notation unlocked takes_all 300 wire).1 refl

-- A parser of UUIDs that takes two texts, and a body that is always the same.
abbrev parsers : Parsers
parsers = record {
  parse_uuid = λ text.
      if bytes_eq text (bytes "3")
      then some 3
      else if bytes_eq text (bytes "5")
      then some 5
      else none;
  decode_publish = λ body. some request;
}

abbrev post : Request
post = record {
  header = λ name. if bytes_eq name (bytes "X-Tenant-ID") then bytes "3" else [];
  path = bytes "/v1/events";
  path_value = λ name. [];
  parameter = λ name. [];
  body = bytes "{}";
}

abbrev fetch : Request
fetch = record post { path = bytes "/v1/events/5" }

event_served :
    (e : Event) × (get_handler parsers fetch (calm full.db)
      ≡ (answered 200 (Body.stored e), calm full.db))
    × IsStored notation draw request 3 5 empty.db full.db e
unfolding publish_event publish create_event scoped call query find attempt insert_all insert_event
    insert_key insert_outbox exists bytes_eq strip_prefix select
event_served =
    published_event_served parsers notation draw post fetch request 3 5 empty full refl refl refl
      refl refl
