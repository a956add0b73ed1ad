-- ===== src/Webhook/Client.antt =====
-- delivery-service/internal/webhook/client.go: one HTTP attempt and how its outcome is classified.
-- The network is an input: an `Exchange` is what net/http reports of a request that it was given, an
-- `Outgoing`. Sign is that of delivery-service/internal/webhook/signer.go.
use hookyard.Base.{
  ℕ, ◌*◌, Bytes, bytes, Bool, true, false, ◌&&◌, ◌||◌, none, some, List, [], ◌∷◌, ◌++◌, ltb, leb,
  ◌==◌, if◌then◌else◌, take, decimal,
}
use hookyard.Attempt.{ResultStatus, success, retryable, permanent, AttemptResult}

pub record Request : Type 0 where
  pub url : Bytes
  pub secret : Bytes
  pub request_timeout_ms : ℕ
  pub event_id : Bytes
  pub event_type : Bytes
  pub body : Bytes

-- What is handed to net/http; `timeout` is that of the request's context.
pub record Outgoing : Type 0 where
  pub url : Bytes
  pub headers : List (Bytes × Bytes)
  pub body : Bytes
  pub timeout : ℕ

-- `headers` has every header with all its values.
pub data Exchange : Type 0 where
  cannot_build : Bytes → Exchange
  no_response : Bool → Bytes → Exchange
  unreadable : Bytes → Exchange
  responded : ℕ → List (Bytes × List Bytes) → Bytes → Exchange

-- The context's timeout: RequestTimeoutMS in nanoseconds, ten seconds where it is not positive.
unfoldable pub timeout : ℕ → ℕ
timeout ms = if ltb 0 ms then ms * 1_000_000 else 10_000_000_000

-- What is outside the client: the hexadecimal HMAC-SHA256 of a message under a key, the text of a
-- uuid.UUID, and the exchange of a request for its outcome.
pub record Network : Type 0 where
  pub hmac_hex : Bytes → Bytes → Bytes
  pub show_uuid : ℕ → Bytes
  pub exchange : Outgoing → Exchange

unfoldable pub sign : Network → Bytes → Bytes → Bytes → Bytes
sign net secret timestamp body =
    bytes "sha256=" ++ net.hmac_hex secret (timestamp ++ bytes "." ++ body)

-- The request that Send builds at the Unix time `unix`.
unfoldable pub outgoing : Network → ℕ → Request → Outgoing
unfolding timeout sign
outgoing net unix req = record {
  url = req.url;
  headers =
      (bytes "Content-Type", bytes "application/json")
      ∷ (bytes "User-Agent", bytes "Hookyard-Delivery/1.0")
      ∷ (bytes "X-Hookyard-Event-ID", req.event_id)
      ∷ (bytes "X-Hookyard-Event-Type", req.event_type)
      ∷ (bytes "X-Hookyard-Timestamp", decimal unix)
      ∷ (bytes "X-Hookyard-Signature", sign net req.secret (decimal unix) req.body)
      ∷ [];
  body = req.body;
  timeout = timeout req.request_timeout_ms;
}

abbrev pub max_response_body : ℕ
max_response_body = 65536

-- The first value of every header that has one.
unfoldable pub first_values : List (Bytes × List Bytes) → List (Bytes × Bytes)
first_values [] = []
first_values ((key, []) ∷ rest) = first_values rest
first_values ((key, v ∷ vs) ∷ rest) = (key, v) ∷ first_values rest

-- The switch over the status code.
unfoldable pub classify : ℕ → ResultStatus
classify code =
    if leb 200 code && ltb code 300
    then success
    else if (code == 408) || ((code == 429) || leb 500 code)
    then retryable
    else permanent

abbrev pub is_success : ResultStatus → Bool
is_success success = true
is_success _ = false

abbrev pub broken : ResultStatus → Bytes → Bytes → ℕ → AttemptResult
broken status code message latency = record {
  status = status;
  http_status_code = none;
  error_code = some code;
  error_message = some message;
  response_headers = [];
  response_body = [];
  latency = latency;
}

unfoldable pub response_result : ℕ → List (Bytes × List Bytes) → Bytes → ℕ → AttemptResult
unfolding classify first_values
response_result code headers body latency = record {
  status = classify code;
  http_status_code = some code;
  error_code = if is_success (classify code) then none else some (bytes "HTTP_" ++ decimal code);
  error_message =
      if is_success (classify code)
      then none
      else some (bytes "consumer returned HTTP " ++ decimal code);
  response_headers = first_values headers;
  response_body = take max_response_body body;
  latency = latency;
}

-- The branches of Send after httpClient.Do.
unfoldable pub outcome : ℕ → Exchange → AttemptResult
unfolding response_result
outcome latency (cannot_build message) =
    broken permanent (bytes "REQUEST_BUILD_ERROR") message latency
outcome latency (no_response true message) = broken retryable (bytes "TIMEOUT") message latency
outcome latency (no_response false message) = broken retryable (bytes "HTTP_ERROR") message latency
outcome latency (unreadable message) =
    broken retryable (bytes "RESPONSE_READ_ERROR") message latency
outcome latency (responded code headers body) = response_result code headers body latency

-- Send, at the Unix time `unix`, given how long it takes.
unfoldable pub send : Network → ℕ → ℕ → Request → AttemptResult
unfolding outcome outgoing
send net unix latency req = outcome latency (net.exchange (outgoing net unix req))
