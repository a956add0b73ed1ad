-- ===== src/Examples/Attempts.antt =====
-- Single attempts, their results and the delays between them.
use hookyard.Base.{
  ◌+◌, ◌*◌, ◌≤◌, ◌≡◌, refl, bytes, none, some, is_some, [], ◌∷◌, find, exists, arith,
}
use hookyard.Base.Session.{Session, transaction, attempt}
use hookyard.Attempt.{retryable, AttemptResult}
use hookyard.Retry.Backoff.{Policy, next_delay_ms}
use hookyard.Retry.Bounds.{next_delay_ms-cap}
use hookyard.Webhook.Client.{Request, Network, outgoing, responded, send}
use hookyard.Webhook.Classification.{IsReport, send-IsReport}
use hookyard.Delivery.Model.{in_progress, is_retrying, Delivery, Tables, Clock}
use hookyard.Delivery.Repository.{
  next_status, insert_attempt, settle, record_attempt_and_transition,
}
use hookyard.Delivery.Service.{next_attempt}
use hookyard.Delivery.Transitions.{next_attempt-next_status}
use hookyard.Delivery.Recorded.{IsRecorded, record_attempt-IsRecorded}

abbrev exponential : Policy
exponential = record {
  backoff_type = bytes "exponential";
  initial_delay_ms = 1000;
  max_delay_ms = 60000;
  jitter_percent = 20;
}

delay_capped : 100 * next_delay_ms exponential 9 12345 ≤ 60000 * (100 + 20)
delay_capped = next_delay_ms-cap exponential 9 12345 (omega arith) (omega arith) (omega arith)

abbrev request : Request
request = record {
  url = bytes "https://a.example/hook";
  secret = 1 ∷ [];
  request_timeout_ms = 5000;
  event_id = bytes "5";
  event_type = bytes "order.paid";
  body = bytes "{}";
}

abbrev unavailable : Network
unavailable = record {
  hmac_hex = λ key message. message;
  show_uuid = λ n. n ∷ [];
  exchange = λ req. responded 503 ((bytes "Server", bytes "x" ∷ []) ∷ []) (bytes "down");
}

unavailable_reported :
    IsReport
      (unavailable.exchange (outgoing unavailable 17 request))
      (send unavailable 17 1000 request)
unavailable_reported = send-IsReport unavailable 17 1000 request

abbrev delivery : Delivery
delivery = record {
  id = 40;
  tenant_id = 3;
  event_id = 5;
  endpoint_id = 7;
  status = in_progress;
  attempt_count = 1;
  next_attempt_at = 100;
  last_attempt_at = some 110;
  last_status_code = none;
  last_error_code = none;
  last_error_message = none;
  lease_owner = some (bytes "host-1");
  lease_expires_at = some 500;
  replay_of_delivery_id = none;
  endpoint_snapshot = record {
    event_type = bytes "order.paid";
    url = bytes "https://a.example/hook";
    secret_encrypted = 1 ∷ [];
    connect_timeout_ms = 1000;
    request_timeout_ms = 5000;
    retry_policy = record {
      max_attempts = 3;
      backoff_type = bytes "linear";
      initial_delay_ms = 1000;
      max_delay_ms = 60000;
      jitter_percent = 0;
    };
  };
  event_payload = bytes "{}";
  created_at = 100;
  updated_at = 110;
  completed_at = none;
}

abbrev clock : Clock
clock = record { now = 200; db_now = 201 }

abbrev result : AttemptResult
result = record {
  status = retryable;
  http_status_code = some 503;
  error_code = some (bytes "HTTP_503");
  error_message = none;
  response_headers = [];
  response_body = [];
  latency = 1000;
}

retry_agrees :
    is_some (next_attempt clock 3 delivery result) ≡ is_retrying (next_status delivery retryable)
retry_agrees = next_attempt-next_status clock 3 delivery result

abbrev session : Session Tables
session = record { db = record { deliveries = delivery ∷ []; attempts = [] }; faults = [] }

attempt-IsRecorded :
    IsRecorded clock delivery result
      (some 900)
      delivery
      session.db
      (record_attempt_and_transition clock delivery result (some 900) session).1.db
unfolding record_attempt_and_transition transaction attempt insert_attempt settle next_status exists
    find
attempt-IsRecorded =
    record_attempt-IsRecorded clock delivery result (some 900) delivery session
      (record_attempt_and_transition clock delivery result (some 900) session).1 refl refl
