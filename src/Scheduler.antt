-- ===== src/Scheduler.antt =====
-- The scheduler of the delivery workers (delivery-service/internal/scheduler/scheduler.go).
pub mod Loop
pub mod Slots
