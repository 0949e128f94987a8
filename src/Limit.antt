-- ===== src/Limit.antt =====
-- Request limits: apps/api/src/rate-limit.js and apps/api/src/login-limit.js.
pub mod Window
pub mod Bounds
pub mod Quota
