-- ===== src/Trip.antt =====
-- The trip loop of the API (apps/api/src): the lifecycle, the permissions, the requests on trips.
pub mod Status
pub mod Disruption
pub mod Lifecycle
pub mod Walk
pub mod Tables
pub mod Client
pub mod Requests
pub mod Create
pub mod Assign
pub mod Ingest
pub mod Rows
pub mod Sound
pub mod Memory
pub mod Service
pub mod Effects
pub mod Changes
pub mod Isolation
pub mod Refusals
pub mod Race
