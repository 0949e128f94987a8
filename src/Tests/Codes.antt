-- ===== src/Tests/Codes.antt =====
-- Examples on the one-time codes.
use roadwisefleet.Prelude.{◌+◌, ◌<◌, ◌≡◌, refl, some}
use roadwisefleet.Otp.Code.{Code, pass, gate, expiry_for, next_attempt}
use roadwisefleet.Otp.Attempts.{failures, gate-failures}

abbrev stored : Code
stored = record { hash = some "h"; expires_at = some (expiry_for 100); attempts = 0 }

-- One attempt is left.
abbrev tried : Code
tried = record stored { attempts = 4 }

tried_passes : gate tried 200 ≡ pass
unfolding gate expiry_for
tried_passes = refl

thrice_passes : gate (failures 3 stored) 200 ≡ pass
unfolding gate failures next_attempt expiry_for
thrice_passes = refl

gate-failures_example : (3 < 5) × (200 < 100 + 600000)
gate-failures_example = gate-failures "h" 3 100 200 thrice_passes
