-- ===== src/Filters.antt =====
-- The filters of the list of trips: apps/api/src/trip-filters.js.
pub mod Query
pub mod Where
pub mod Statuses
pub mod RoundTrip
