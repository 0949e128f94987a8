-- ===== src/Otp/Code.antt =====
-- The rules of a code: `generateCode`, `expiryFor`, `gate`, `resendWaitSeconds` and `nextAttempt`
-- of apps/api/src/email-otp.js. Instants are milliseconds; the keyed hash is a library's.
use Prim.Native.Nat.{max}
use roadwisefleet.Prelude.{
  ℕ, zero, suc, ◌+◌, ◌-◌, ◌*◌, ◌/◌, String, Bool, Option, none, some, leb, ltb, if◌then◌else◌,
}
use roadwisefleet.Trip.Tables.{truthy}

-- A stored code, with the columns that the rules read.
pub record Code : Type 0 where
  pub hash : Option String
  pub expires_at : Option ℕ
  pub attempts : ℕ

-- `OTP_MAX_ATTEMPTS`, `OTP_TTL_SECONDS`, `OTP_RESEND_SECONDS`
abbrev pub max_attempts : ℕ
max_attempts = 5

abbrev pub ttl_seconds : ℕ
ttl_seconds = 600

abbrev pub resend_seconds : ℕ
resend_seconds = 60

-- A digit that the source of random numbers gives; any other value counts as 0.
abbrev digit_of : Option ℕ → ℕ
digit_of none = 0
digit_of (some d) = if ltb d 10 then d else 0

-- The loop of `generateCode`: the value of `n` digits, where `pick i` is the draw of the step with
-- `i` steps behind it, `none` if it is no natural number. The code is the value padded with zeros.
unfoldable pub generate_value : (ℕ → Option ℕ) → ℕ → ℕ
generate_value pick zero = 0
generate_value pick (suc n) = generate_value pick n * 10 + digit_of (pick n)

-- `expiryFor(now)`
unfoldable pub expiry_for : ℕ → ℕ
expiry_for now = now + ttl_seconds * 1000

pub data Gate : Type 0 where
  pass not_started expired locked : Gate

-- `gate({ hash, expiresAt, attempts, now })`
unfoldable pub gate : Code → ℕ → Gate
gate c now = elim (truthy c.hash) [
  | none ↦ not_started
  | some _ ↦ elim c.expires_at [
    | none ↦ not_started
    | some at ↦ if leb max_attempts c.attempts then locked else if leb at now then expired else pass
  ]
]

-- `resendWaitSeconds({ createdAt, now })`
unfoldable pub resend_wait_seconds : Option ℕ → ℕ → ℕ
resend_wait_seconds none now = 0
resend_wait_seconds (some at) now =
    let free = at + resend_seconds * 1000 in
    if leb free now then 0 else max 1 ((free - now + 999) / 1000)

pub record Attempt : Type 0 where
  pub attempts : ℕ
  pub exhausted : Bool

-- `nextAttempt(attempts)`
unfoldable pub next_attempt : ℕ → Attempt
next_attempt attempts = record {
  attempts = attempts + 1;
  exhausted = leb max_attempts (attempts + 1);
}
