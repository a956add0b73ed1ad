-- ===== src/Projection.antt =====
-- The delivery service's copy of endpoints and subscriptions:
-- delivery-service/internal/endpoint.
pub mod Store
pub mod Freshness
