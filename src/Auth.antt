-- ===== src/Auth.antt =====
-- Capabilities: apps/api/src/auth/permissions.js and apps/api/src/trip-visibility.js.
-- A role's list is `none` where the source's value is no array.
pub mod Permissions
pub mod Visibility
pub mod Wildcards
