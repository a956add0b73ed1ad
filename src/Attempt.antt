-- ===== src/Attempt.antt =====
-- The outcome of one delivery attempt: delivery-service/internal/attempt/model.go.
use hookyard.Base.{ℕ, Bytes, Option, List}

pub data ResultStatus : Type 0 where
  success retryable permanent : ResultStatus

-- `latency` is a time.Duration in nanoseconds.
pub record AttemptResult : Type 0 where
  pub status : ResultStatus
  pub http_status_code : Option ℕ
  pub error_code : Option Bytes
  pub error_message : Option Bytes
  pub response_headers : List (Bytes × Bytes)
  pub response_body : Bytes
  pub latency : ℕ
