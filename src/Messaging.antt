-- ===== src/Messaging.antt =====
-- The messages that the delivery service takes from Kafka
-- (delivery-service/internal/kafka and delivery-service/internal/eventClient).
pub mod Consumer
pub mod EventHandler
pub mod Offsets
pub mod Mismatch
pub mod EndpointHandler
pub mod Redelivery
pub mod Message
