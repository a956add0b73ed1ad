-- ===== src/Secrets.antt =====
-- The ciphers of the two services: endpoint-service/internal/secrets and
-- delivery-service/internal/secrets.
pub mod Ciphers
pub mod Stored
