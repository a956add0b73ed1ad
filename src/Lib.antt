-- ===== src/Lib.antt =====
-- Hookyard: a model of its services and the theorems that hold of it.
--
-- An application publishes events to the event service, which stores each with its idempotency key
-- and a row of its outbox and publishes the outbox to Kafka. Customers register endpoints with the
-- endpoint service, which keeps an outbox of its own. The delivery service consumes both streams:
-- changes of endpoints go to its projection, accepted events become one delivery for each endpoint
-- that subscribes to their type. A scheduler claims the deliveries that are due under a lease and a
-- worker sends each by HTTP, records the attempt and settles the delivery or plans the next
-- attempt. A failed or dead delivery can be replayed.
--
-- Which file models which part, with paths from the repository's root:
--   Delivery/Model, Repository, Claim, Service   delivery-service/internal/delivery: a Delivery is a
--     row of the table, Tables the two tables; create_deliveries, claim_batch, get,
--     record_attempt_and_transition and create_replay are the methods of Repository,
--     handle_event_accepted, deliver and replay those of Service. Operations puts them into
--     histories. Rows, Counted, Handling, Preservation, Claims, Consistency, Settled, Leases,
--     BusyConnection, Creation, Replays, Transitions, Recorded and Rounds hold lemmas and theorems.
--   Delivery/Listing  List and ListAttempts of both; Pages has the theorem on cursors
--   Delivery/Http     delivery-service/internal/httpapi and the routes of its cmd/server; Requests,
--     OwnRows and Isolation have the lemmas and theorems
--   Attempt           delivery-service/internal/attempt
--   Retry/Backoff     delivery-service/internal/retry; Bounds has its theorems
--   Webhook/Client    delivery-service/internal/webhook; Classification has its theorems
--   Projection/Store  delivery-service/internal/endpoint; Freshness has its theorem
--   Scheduler/Loop    delivery-service/internal/scheduler; Slots has its theorems
--   Messaging/Consumer, EventHandler, EndpointHandler   delivery-service/internal/kafka and
--     eventClient; Offsets, Mismatch and Redelivery have their theorems
--   Messaging/Message  the messages of endpoint-service/internal/kafka and MessageID
--   Settings           the settings that cmd/server of both services read
--   Secrets/Ciphers   endpoint-service/internal/secrets and delivery-service/internal/secrets with the
--     key that delivery-service/cmd/server reads; Stored has the theorem on both
--   Event/Store       event-service/internal/event; Acceptance and Idempotency have its theorems
--   Event/Http        event-service/internal/httpapi; Served has the theorem
--   Event/Publisher   event-service/internal/outbox; AtLeastOnce and Batches have its theorems
--   Validation/Rules  endpoint-service/internal/validation; EventTypes has its theorem
--   Endpoint/Store, Repository, Service   endpoint-service/internal/endpoint and retrypolicy:
--     create_endpoint, get_endpoint, patch and delete are the methods of Repository, create,
--     patch_endpoint and delete_endpoint those of Service; Growth, Versions, History, Statements,
--     Patches and Admission have their lemmas and theorems
--   Endpoint/Listing  List and GetSubscriptions; Pages has the theorem on cursors
--   Endpoint/Http     endpoint-service/internal/httpapi; Requests has its routes and theorems
--   Outbox/Relay      endpoint-service/internal/outbox; Delays and Publication have its theorems
--   Auth/Store, Repository, Service   auth-service/internal/model, repository and service: tenants,
--     API keys and the audit log, with the lists of them in Listing; Operations puts the methods
--     into histories, and Preservation, Verification, Revocation, History, Deletion, Secrets and Issue
--     have the lemmas and theorems
--   Auth/Http         auth-service/internal/httpapi; Access has its routes and the theorem on secrets
--   Http              requests, responses and handlers, as the four services share them
--   Json              the JSON values of the messages between the services
--   Examples          the theorems at concrete inputs
--
-- How the code is modelled. A handler is a program over a Session (Base/Session): the tables and a
-- list of faults, which says of each call of the database driver to come whether it fails; past the
-- end of the list every call succeeds. A theorem about a session therefore covers a failure of any
-- call of the handler. A transaction that reports an error restores the tables, and transactions
-- run one after the other, except that what others commit between the read and the write of Patch
-- and Delete of an endpoint, which do not lock the row that they read, is a parameter (Moment of
-- Endpoint/Store). What a statement does to the tables, constraints of the schema included,
-- is written out by its definition. Base/Keeps, Base/Ensures and Base/Views are the rules by which
-- invariants of such programs, their results, and what they cannot see are proved. A loop over a
-- slice is recursion on the list; the loops that run for ever, those of the scheduler and of the
-- consumer, are a step relation and a fold over the turns to come. There is fuel in two places: in
-- the digits of a decimal number (Base/Decimal), which are fewer than the number, and in the client
-- that follows cursors (Base/Following), for whom one request more than there are rows is proved to
-- be enough.
--
-- Numbers are natural numbers: a uuid.UUID is a number with uuid.Nil = 0, an instant or a duration
-- a number of nanoseconds, a string or []byte a list of bytes. Sizes that the code holds in int or
-- int64 stay far below its bounds and do not wrap here; where the sign of a setting matters there
-- is an integer (Base/Int). Random draws, new UUIDs, clocks, the network, Kafka, HMAC, AES-GCM and
-- the text of UUIDs and times are parameters, as are the hash of a key, lower-casing in the database, and
-- what its columns of the types JSONB and TIMESTAMPTZ keep of an event.
--
-- A handler of HTTP is a function from a request to a response, whose JSON text is not modelled.
-- What encoding/json makes of a body is a parameter, as is the choice of a route by the mux;
-- base64, hex, decimal numbers and the functions of package strings on ASCII text are modelled
-- (Base/Base64, Hex, Atoi, Trim).
--
-- Not modelled: connections, servers, the order of start and shutdown, and the command line tool,
-- which has no code. Of the faults of a row that is scanned, those of decoding its stored retry
-- policy are left out, since only the services write it.
mod Base
pub mod Attempt
pub mod Retry
pub mod Webhook
pub mod Delivery
pub mod Projection
pub mod Json
pub mod Http
pub mod Event
pub mod Scheduler
pub mod Messaging
pub mod Validation
pub mod Endpoint
pub mod Auth
pub mod Outbox
pub mod Secrets
pub mod Settings
mod Examples
