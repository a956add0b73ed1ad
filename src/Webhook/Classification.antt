-- ===== src/Webhook/Classification.antt =====
-- What delivery-service/internal/webhook/client.go makes of a response.
use hookyard.Base.{
  ℕ, ◌≤◌, ◌<◌, ◌≡◌, refl, ◌⊎◌, ◌↔◌, ◌≢◌, Bytes, Bool, true, false, none, some, length,
  length-take-le, is_none, not, ◌++◌, bytes, decimal, if◌then◌else◌, arith,
}
use hookyard.Attempt.{ResultStatus, success, retryable, permanent, AttemptResult}
use hookyard.Webhook.Client.{
  Request, Exchange, cannot_build, no_response, unreadable, responded, classify, max_response_body,
  outcome, Network, outgoing, send, is_success,
}

-- A response is a success exactly for the codes 200 to 299, and worth a retry exactly for 408, 429
-- and the codes from 500 on; every other code is a permanent failure.
pub classify_iff :
    (code : ℕ)
    → ((classify code ≡ success) ↔ ((200 ≤ code) × (code < 300)))
      × ((classify code ≡ retryable) ↔ ((code ≡ 408) ⊎ (code ≡ 429) ⊎ (500 ≤ code)))
      × ((classify code ≡ permanent)
          ↔ (((code < 200) ⊎ (300 ≤ code)) × (code ≢ 408) × (code ≢ 429) × (code < 500)))
unfolding classify
classify_iff code = ground arith

abbrev pub was_read : Exchange → Bool
was_read (responded code headers body) = true
was_read _ = false

pub record IsReport (x : Exchange) (res : AttemptResult) : Type 0 where
  pub body : length res.response_body ≤ 65536
  pub error_code : is_none res.error_code ≡ is_success res.status
  pub error_message : is_none res.error_message ≡ is_success res.status
  pub status_code : is_none res.http_status_code ≡ not (was_read x)

outcome-IsReport : (latency : ℕ) (x : Exchange) → IsReport x (outcome latency x)
unfolding outcome
outcome-IsReport latency (cannot_build message) = ground arith
outcome-IsReport latency (no_response true message) = ground arith
outcome-IsReport latency (no_response false message) = ground arith
outcome-IsReport latency (unreadable message) = ground arith
outcome-IsReport latency (responded code headers body) = record {
  body = length-take-le max_response_body body;
  error_code = present code (bytes "HTTP_" ++ decimal code) (classify code);
  error_message = present code (bytes "consumer returned HTTP " ++ decimal code) (classify code);
  status_code = refl;
}
  where
    present :
        (n : ℕ) (text : Bytes) (r : ResultStatus)
        → is_none (if is_success r then none else some text) ≡ is_success r
    present n text r = ground arith

-- Whatever the network does, the result of `send` keeps at most 64 KiB of the body, has no error
-- code and no error message exactly when it is a success, and has a status code exactly when a
-- response was read to its end.
pub send-IsReport :
    (net : Network) (unix latency : ℕ) (req : Request)
    → IsReport (net.exchange (outgoing net unix req)) (send net unix latency req)
unfolding send
send-IsReport net unix latency req = outcome-IsReport latency (net.exchange (outgoing net unix req))
