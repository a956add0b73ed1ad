-- ===== src/Endpoint.antt =====
-- The endpoint service: endpoints, their subscriptions and retry policies
-- (endpoint-service/internal/endpoint and endpoint-service/internal/retrypolicy).
pub mod Store
pub mod Repository
pub mod Growth
pub mod Versions
pub mod History
pub mod Statements
pub mod Patches
pub mod Service
pub mod Listing
pub mod Http
pub mod Requests
pub mod Pages
pub mod Admission
