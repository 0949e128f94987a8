-- ===== src/Share.antt =====
-- Signed links: of a trip for its customer, and of a document (apps/api/src/auth/tokens.js,
-- apps/api/src/track-link.js, apps/api/src/guest-share.js).
pub mod Cuts
pub mod Decimal
pub mod Subjects
pub mod Tokens
pub mod RoundTrip
pub mod Links
pub mod Signed
pub mod Opened
pub mod Minted
pub mod Scopes
pub mod Windows
pub mod Tracked
pub mod Routes
pub mod Revoked
pub mod Dead
pub mod Shown
pub mod Plain
pub mod Memory
pub mod Urls
pub mod Guests
pub mod Served
