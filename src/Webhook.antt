-- ===== src/Webhook.antt =====
-- The HTTP client of the delivery service: delivery-service/internal/webhook.
pub mod Client
pub mod Classification
