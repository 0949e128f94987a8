-- ===== src/Otp/Attempts.antt =====
-- How long a code lives, and how often it may be tried (apps/api/src/email-otp.js).
use roadwisefleet.Prelude.{
  ℕ, zero, suc, ◌+◌, ◌≤◌, ◌<◌, ◌≡◌, sym, ap, ◌∙◌, String, Bool, true, false, Option, some, arith,
}
use roadwisefleet.Otp.Code.{
  Code, generate_value, expiry_for, Gate, pass, locked, gate, next_attempt,
}

-- The code after a failed attempt.
abbrev pub failed : Code → Code
failed c = record c { attempts = (next_attempt c.attempts).attempts }

abbrev pub is_locked : Gate → Bool
is_locked locked = true
is_locked _ = false

-- A code that passes the gate and then fails is reported as exhausted exactly if the gate, at any
-- later question, refuses it as locked.
pub exhausted-gate :
    (c : Code) (now later : ℕ)
    → gate c now ≡ pass
    → (next_attempt c.attempts).exhausted ≡ is_locked (gate (failed c) later)
unfolding gate next_attempt
exhausted-gate c now later h = ground arith

-- A code with `n` failed attempts.
unfoldable pub failures : ℕ → Code → Code
failures zero c = c
failures (suc n) c = failures n (failed c)

failures-record : (n : ℕ) (c : Code) → failures n c ≡ record c { attempts = n + c.attempts }
unfolding failures next_attempt
failures-record zero c =
    ap (λ a. record c { attempts = a }) (let e : c.attempts ≡ 0 + c.attempts = omega arith in e)
failures-record (suc n) c =
    failures-record n (failed c)
    ∙ ap (λ a. record c { attempts = a })
        (let e : n + (c.attempts + 1) ≡ suc n + c.attempts = omega arith in e)

-- A code of which no attempt was made when it was stored passes the gate only after fewer than
-- five failures, and before the ten minutes after its sending are over.
pub gate-failures :
    (hash : String) (n sent now : ℕ)
    → gate
        (failures n
          (record { hash = some hash; expires_at = some (expiry_for sent); attempts = 0 }))
        now
      ≡ pass
    → (n < 5) × (now < sent + 600000)
unfolding gate expiry_for
gate-failures hash n sent now h =
    let same =
      failures-record n
        (record { hash = some hash; expires_at = some (sent + 600000); attempts = 0 }) in
    let passed = ap (λ c. gate c now) (sym same) ∙ h in
    (ground (arith, passed), ground (arith, passed))

value_bound :
    (pick : ℕ → Option ℕ) (n : ℕ) → generate_value pick n + 1 ≤ generate_value (λ _. some 9) n + 1
unfolding generate_value
value_bound pick zero = omega arith
value_bound pick (suc n) = ground (arith, value_bound pick n)

-- A code of six digits is below a million, whatever the source of random numbers gives.
pub generate_value-bound : (pick : ℕ → Option ℕ) → generate_value pick 6 < 1000000
unfolding generate_value
generate_value-bound pick = omega (arith, value_bound pick 6)
