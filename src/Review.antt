-- ===== src/Review.antt =====
-- Reviews of a delivery by the two sides: apps/api/src/reviews.js.
pub mod Rules
pub mod Requests
pub mod Client
pub mod Sampling
pub mod Quota
pub mod Once
pub mod Memory
