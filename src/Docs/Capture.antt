-- ===== src/Docs/Capture.antt =====
-- When and where a document was photographed: `normalizeCapture` of apps/api/src/documents.js.
use mathlib.Core.Path.{subst}
use roadwisefleet.Prelude.{
  ℕ, ◌+◌, ◌≡◌, refl, sym, ap, ◌∙◌, ◌⊎◌, Bool, true, false, not, ◌&&◌, ◌||◌, Option, none, some,
  arith, inl, inr, if◌then◌else◌, Bool-cases,
}
use roadwisefleet.Js.{
  Value, number, Number, plus, Runtime, Fields, is_finite, above, below_minus, round, is_absent,
  to_text,
}
use roadwisefleet.Trip.Tables.{Instant}
use roadwisefleet.Gps.Points.{DateParser, date_of_ms}

-- `MAX_CAPTURE_SKEW_MS`
abbrev pub max_capture_skew_ms : ℕ
max_capture_skew_ms = 86400000

-- `input.geo`: null or undefined, no plain object, or an object.
pub data Geo : Type 0 where
  no_geo bad_geo : Geo
  geo : Fields → Geo

pub data CaptureError : Type 0 where
  captured_at_invalid captured_at_in_future geo_not_object geo_not_numbers : CaptureError
  geo_out_of_range accuracy_invalid : CaptureError

-- The columns to store; an instant that is no valid date is `some none`.
pub record Capture : Type 0 where
  pub captured_at : Option (Option Instant)
  pub capture_lat : Option Number
  pub capture_lng : Option Number
  pub capture_accuracy_m : Option ℕ

pub data CaptureReply {ℓ} (A : Type ℓ) : Type ℓ where
  ok : A → CaptureReply A
  invalid_capture : CaptureError → CaptureReply A

infixl 5 ◌>>=◌
abbrev pub ◌>>=◌ {ℓ κ} :
    {A : Type ℓ} {B : Type κ} → CaptureReply A → (A → CaptureReply B) → CaptureReply B
ok a >>= f = f a
invalid_capture e >>= f = invalid_capture e

-- `typeof capturedAt === 'number' ? capturedAt : Date.parse(String(capturedAt))`
unfoldable pub capture_ms : Runtime → DateParser → Value → Option Number
capture_ms r parse (number n) = if is_finite n then some n else none
capture_ms r parse v = elim (parse (to_text r v)) [
  | none ↦ none
  | some n ↦ if is_finite n then some n else none
]

unfoldable pub capture_time :
    Runtime → DateParser → ℕ → Value → CaptureReply (Option (Option Instant))
capture_time r parse now v = if is_absent v then ok none else elim (capture_ms r parse v) [
  | none ↦ invalid_capture captured_at_invalid
  | some ms ↦
      if above ms (now + max_capture_skew_ms)
      then invalid_capture captured_at_in_future
      else ok (some (date_of_ms ms))
]

-- `Number(accuracy)`, tested and rounded
unfoldable pub metres : Number → CaptureReply (Option ℕ)
metres (plus n) = ok (some (round n))
metres _ = invalid_capture accuracy_invalid

unfoldable pub accuracy_of : Runtime → Value → CaptureReply (Option ℕ)
accuracy_of r v = if is_absent v then ok none else metres (r.to_number v)

unfoldable pub is_off_earth : Number → Number → Bool
is_off_earth lat lng = below_minus lat 90 || above lat 90 || below_minus lng 180 || above lng 180

unfoldable pub position_of : Runtime → Fields → CaptureReply (Number × Number)
position_of r f =
    let lat = r.to_number (f "lat") in
    let lng = r.to_number (f "lng") in
    if not (is_finite lat) || not (is_finite lng)
    then invalid_capture geo_not_numbers
    else if is_off_earth lat lng
    then invalid_capture geo_out_of_range
    else ok (lat, lng)

abbrev pub without_geo : Option (Option Instant) → Capture
without_geo at = record {
  captured_at = at;
  capture_lat = none;
  capture_lng = none;
  capture_accuracy_m = none;
}

abbrev pub capture_of : Option (Option Instant) → Number × Number → Option ℕ → Capture
capture_of at position accuracy = record {
  captured_at = at;
  capture_lat = some position.0;
  capture_lng = some position.1;
  capture_accuracy_m = accuracy;
}

unfoldable pub with_geo : Runtime → Option (Option Instant) → Geo → CaptureReply Capture
with_geo r at no_geo = ok (without_geo at)
with_geo r at bad_geo = invalid_capture geo_not_object
with_geo r at (geo f) = do
  position ← position_of r f
  accuracy ← accuracy_of r (f "accuracy")
  ok (capture_of at position accuracy)

-- `normalizeCapture({ capturedAt, geo, now })`
unfoldable pub normalize_capture : Runtime → DateParser → ℕ → Value → Geo → CaptureReply Capture
normalize_capture r parse now v g = do at ← capture_time r parse now v; with_geo r at g

-- The position is one on the earth, if there is one.
unfoldable pub is_within : Option Number → Option Number → Bool
is_within (some lat) (some lng) = is_finite lat && is_finite lng && not (is_off_earth lat lng)
is_within none none = true
is_within _ _ = false

CaptureReply-cases {ℓ} :
    {A : Type ℓ} (r : CaptureReply A)
    → ((a : A) × (r ≡ ok a)) ⊎ ((e : CaptureError) × (r ≡ invalid_capture e))
CaptureReply-cases (ok a) = inl (a, refl)
CaptureReply-cases (invalid_capture e) = inr (e, refl)

ok_same {ℓ} : {A : Type ℓ} {x y : A} → ok x ≡ ok y → x ≡ y
ok_same e = cc e

both_within : (x y off : Bool) → (not x || not y) ≡ false → off ≡ false → (x && y && not off) ≡ true
both_within x y off h g = ground (arith, h, g)

position_of-within :
    (r : Runtime) (f : Fields) (p : Number × Number)
    → position_of r f ≡ ok p
    → is_within (some p.0) (some p.1) ≡ true
unfolding position_of is_within
position_of-within r f p h =
    elim (Bool-cases
      (not (is_finite (r.to_number (f "lat"))) || not (is_finite (r.to_number (f "lng"))))) [
        | inl wrong ↦ absurd (ground (arith, h, wrong))
        | inr right ↦
            elim (Bool-cases (is_off_earth (r.to_number (f "lat")) (r.to_number (f "lng")))) [
              | inl off ↦ absurd (ground (arith, h, right, off))
              | inr on ↦
                  subst {A = Number × Number} (λ z. is_within (some z.0) (some z.1) ≡ true)
                    (ok_same (ground (arith, h, right, on)))
                    (both_within (is_finite (r.to_number (f "lat")))
                      (is_finite (r.to_number (f "lng")))
                      (is_off_earth (r.to_number (f "lat")) (r.to_number (f "lng"))) right on)
            ]
      ]

within_of : Capture → Bool
within_of c = is_within c.capture_lat c.capture_lng

with_geo-within :
    (r : Runtime) (at : Option (Option Instant)) (g : Geo) (c : Capture)
    → with_geo r at g ≡ ok c
    → is_within c.capture_lat c.capture_lng ≡ true
unfolding with_geo within_of is_within
with_geo-within r at no_geo c h = ap within_of (sym (ok_same h))
with_geo-within r at bad_geo c h = absurd (ground (arith, h))
with_geo-within r at (geo f) c h = elim (CaptureReply-cases (position_of r f)) [
  | inr (e, bad) ↦ absurd (ground (arith, h, bad))
  | inl (p, good) ↦ elim (CaptureReply-cases (accuracy_of r (f "accuracy"))) [
    | inr (e, bad) ↦ absurd (ground (arith, h, good, bad))
    | inl (a, fine) ↦
        let same : capture_of at p a ≡ c = ok_same (ground (arith, h, good, fine)) in
        ap within_of (sym same) ∙ position_of-within r f p good
  ]
]

-- A capture that is accepted has no position, or one on the earth.
pub normalize_capture-within :
    (r : Runtime) (parse : DateParser) (now : ℕ) (v : Value) (g : Geo) (c : Capture)
    → normalize_capture r parse now v g ≡ ok c
    → is_within c.capture_lat c.capture_lng ≡ true
unfolding normalize_capture
normalize_capture-within r parse now v g c h =
    elim (CaptureReply-cases (capture_time r parse now v)) [
      | inr (e, bad) ↦ absurd (ground (arith, h, bad))
      | inl (at, good) ↦ with_geo-within r at g c (ground (arith, h, good))
    ]
