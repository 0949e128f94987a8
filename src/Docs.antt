-- ===== src/Docs.antt =====
-- Documents: their names and keys in the store, and who sees them: apps/api/src/documents.js.
pub mod Names
pub mod Safe
pub mod Keys
pub mod Access
pub mod Capture
pub mod Upload
pub mod Accepted
pub mod Stored
