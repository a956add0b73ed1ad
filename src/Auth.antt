-- ===== src/Auth.antt =====
-- The auth service: tenants and their API keys (auth-service/internal/repository).
pub mod Store
pub mod Repository
pub mod Service
pub mod Secrets
pub mod Issue
pub mod Listing
pub mod Http
pub mod Access
pub mod Operations
pub mod Preservation
pub mod Verification
pub mod Revocation
pub mod History
pub mod Deletion
