-- ===== src/Gps.antt =====
-- Sampled positions: apps/api/src/gps-ingest.js.
pub mod Points
pub mod Batch
pub mod Laws
pub mod Early
