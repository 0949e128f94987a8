-- ===== src/Hub.antt =====
-- The fan-out of positions to the open streams: apps/api/src/gps-stream.js.
pub mod Listeners
pub mod Views
pub mod Refinement
pub mod Delivery
