-- ===== src/Outbox.antt =====
-- The outbox of the endpoint service and its relay (endpoint-service/internal/outbox).
pub mod Relay
pub mod Delays
pub mod Publication
