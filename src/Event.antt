-- ===== src/Event.antt =====
-- The event service: accepted events, their idempotency keys and the outbox
-- (event-service/internal/event and event-service/internal/outbox).
pub mod Store
pub mod Http
pub mod Publisher
pub mod Acceptance
pub mod Idempotency
pub mod AtLeastOnce
pub mod Batches
pub mod Served
