-- ===== src/Notify/Words.antt =====
-- The words that a reference drops (`tripRef` of apps/api/src/notifications.js).
use Prim.Native.Char.{Char}
use roadwisefleet.Prelude.{String}
