-- ===== src/Examples.antt =====
-- Concrete runs of the services.
mod Deliveries
mod Attempts
mod Events
mod Messages
mod Endpoints
mod Requests
mod Keys
mod Access
mod Pages
mod Changes
mod Rounds
