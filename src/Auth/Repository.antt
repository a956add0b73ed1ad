-- ===== src/Auth/Repository.antt =====
-- auth-service/internal/repository/repository.go. `lower` is PostgreSQL's lower(), `hash` is SHA-256;
-- new identifiers, the secret and its prefix are inputs.
mod Tenants
mod Keys
mod Verify
unfoldable pub use Tenants.*
unfoldable pub use Keys.*
unfoldable pub use Verify.*
