-- ===== src/Validation.antt =====
-- What the endpoint service accepts in a request (endpoint-service/internal/validation).
pub mod Rules
pub mod EventTypes
