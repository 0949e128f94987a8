-- ===== src/Market.antt =====
-- The load marketplace: apps/api/src/marketplace.js and apps/api/src/marketplace-sweep.js.
pub mod States
pub mod Award
pub mod Isolation
pub mod AutoMatch
pub mod Settle
pub mod Sweep
pub mod Fields
pub mod Forms
pub mod Valid
pub mod Matching
pub mod Ranking
pub mod Cheapest
