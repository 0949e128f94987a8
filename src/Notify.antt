-- ===== src/Notify.antt =====
-- Notifications of the customers: apps/api/src/notifications.js, and what
-- infra/scripts/pilot-notify-deliver.sh reads back.
pub mod Events
pub mod Contacts
pub mod Envelope
pub mod Reader
pub mod Lines
pub mod Contents
pub mod Gather
pub mod RoundTrip
pub mod FileName
pub mod Spool
pub mod Emit
pub mod Files
pub mod Atomic
pub mod Live
pub mod Memory
pub mod Refs
pub mod Words
pub mod Vars
pub mod Blank
pub mod Collected
pub mod Complete
