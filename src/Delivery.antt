-- ===== src/Delivery.antt =====
-- The delivery service: deliveries, their attempts, leases and retries
-- (delivery-service/internal/delivery).
pub mod Model
pub mod Repository
pub mod Claim
pub mod Service
pub mod Rows
pub mod Operations
pub mod Claims
pub mod Consistency
pub mod Preservation
pub mod Settled
pub mod Leases
pub mod Creation
pub mod Transitions
pub mod Recorded
pub mod Replays
pub mod BusyConnection
pub mod Listing
pub mod Http
pub mod Requests
pub mod Pages
pub mod Counted
pub mod Handling
pub mod Rounds
pub mod OwnRows
pub mod Isolation
