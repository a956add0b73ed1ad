-- ===== src/Delivery/Service.antt =====
-- delivery-service/internal/delivery/service.go. The reader of endpoints, the decryptor and the
-- network are parameters.
use hookyard.Base.{
  ℕ, ◌+◌, ◌/◌, Bytes, Bool, true, false, ◌||◌, ◌&&◌, Option, none, some, List, [], ◌∷◌, ◌==◌, ltb,
  if◌then◌else◌, is_empty,
}
use hookyard.Base.Session.{other, M, ◌>>=◌, pure, throw}
use hookyard.Attempt.{ResultStatus, retryable, AttemptResult}
use hookyard.Retry.Backoff.{next_delay, Policy}
use hookyard.Webhook.Client.{Request, Network, send}
use hookyard.Delivery.Model.{
  Status, failed, dlq, RetryPolicy, EventAccepted, EndpointSnapshotWithId, Delivery, Tables,
  UniqueIndex, Clock,
}
use hookyard.Delivery.Repository.{
  create_deliveries, get, record_attempt_and_transition, create_replay,
}

abbrev pub create_if_any :
    UniqueIndex
    → (ℕ → ℕ)
    → Clock
    → EventAccepted
    → List EndpointSnapshotWithId
    → M Tables (Unit {0})
create_if_any index fresh c e [] = pure tt
create_if_any index fresh c e (ep ∷ eps) = create_deliveries index fresh c e (ep ∷ eps)

-- `endpoints` is EndpointReader.GetForEvent.
unfoldable pub handle_event_accepted :
    (ℕ → Bytes → M Tables (List EndpointSnapshotWithId))
    → UniqueIndex
    → (ℕ → ℕ)
    → Clock
    → EventAccepted
    → M Tables (Unit {0})
handle_event_accepted endpoints index fresh c e =
    if (e.event_id == 0) || ((e.tenant_id == 0) || is_empty e.event_type)
    then throw (other "invalid EventAccepted")
    else if is_empty e.payload
    then throw (other "EventAccepted missing payload")
    else (do eps ← endpoints e.tenant_id e.event_type; create_if_any index fresh c e eps)

abbrev pub is_retryable : ResultStatus → Bool
is_retryable retryable = true
is_retryable _ = false

abbrev pub backoff_policy : RetryPolicy → Policy
backoff_policy p = record {
  backoff_type = p.backoff_type;
  initial_delay_ms = p.initial_delay_ms;
  max_delay_ms = p.max_delay_ms;
  jitter_percent = p.jitter_percent;
}

-- When a failed attempt is to be repeated: `random` is the draw of rand.Float64().
unfoldable pub next_attempt : Clock → ℕ → Delivery → AttemptResult → Option ℕ
next_attempt c random d res =
    if is_retryable res.status && ltb d.attempt_count d.endpoint_snapshot.retry_policy.max_attempts
    then some (
        c.now + next_delay (backoff_policy d.endpoint_snapshot.retry_policy) d.attempt_count random)
    else none

abbrev pub webhook_request : Network → Delivery → Bytes → Request
webhook_request net d secret = record {
  url = d.endpoint_snapshot.url;
  secret = secret;
  request_timeout_ms = d.endpoint_snapshot.request_timeout_ms;
  event_id = net.show_uuid d.event_id;
  event_type = d.endpoint_snapshot.event_type;
  body = d.event_payload;
}

-- The delivery that is recorded carries the decrypted secret, as in the source.
abbrev pub with_secret : Delivery → Bytes → Delivery
with_secret d secret = record d {
  endpoint_snapshot = record (d.endpoint_snapshot) { secret_encrypted = secret };
}

abbrev pub attempt_and_record :
    Network → ℕ → ℕ → Clock → Delivery → Option Bytes → M Tables (Unit {0})
attempt_and_record net latency random c d none = throw (other "decrypt endpoint secret")
attempt_and_record net latency random c d (some secret) =
    let res = send net (c.now / 1_000_000_000) latency (webhook_request net d secret) in
    record_attempt_and_transition c (with_secret d secret) res
      (next_attempt c random (with_secret d secret) res)

unfoldable pub deliver :
    (Bytes → Option Bytes) → Network → ℕ → ℕ → Clock → Delivery → M Tables (Unit {0})
deliver decrypt net latency random c d =
    attempt_and_record net latency random c d (decrypt d.endpoint_snapshot.secret_encrypted)

-- d.Status != StatusFailed && d.Status != StatusDLQ, the other way round.
abbrev pub is_replayable : Status → Bool
is_replayable failed = true
is_replayable dlq = true
is_replayable _ = false

unfoldable pub replay : UniqueIndex → ℕ → Clock → ℕ → ℕ → M Tables ℕ
replay index fresh c tenant_id id = do
  d ← get tenant_id id
  (if is_replayable d.status
      then create_replay index fresh c d
      else throw (other "delivery cannot be replayed"))
