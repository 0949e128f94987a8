-- ===== src/Otp.antt =====
-- One-time codes by mail: apps/api/src/email-otp.js.
pub mod Code
pub mod Attempts
