-- ===== src/Tests.antt =====
-- Examples and tests, run over the in-memory client.
mod Data
mod Trips
mod Parts
mod Services
mod Markets
mod Entries
mod Codes
mod Streams
mod Links
mod Reviews
mod Papers
mod Notices
mod Lists
