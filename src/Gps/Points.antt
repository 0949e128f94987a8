-- ===== src/Gps/Points.antt =====
-- One sampled point: `parseGpsTime` and `parseGpsPoint` of apps/api/src/gps-ingest.js.
-- Instants of points are numbers of milliseconds since 1970, as the source has them; a row's
-- instant counts from the language's earliest date.
use Prim.Native.Char.{code}
use Prim.Native.String.{[], ◌∷◌}
use roadwisefleet.Prelude.{
  ℕ, ◌+◌, ◌-◌, ◌*◌, ◌/◌, String, ◌≡◌, refl, ◌⊎◌, inl, inr, not, ◌||◌, Option, none, some, ◌==◌, leb,
  ltb, if◌then◌else◌,
}
use roadwisefleet.Prelude.Text.{trim}
use roadwisefleet.Js.{
  Number, plus, minus, Value, undefined, null, number, text, Fields, million, is_finite, above,
  below_minus, round, coalesce,
}
use roadwisefleet.Trip.Tables.{Instant}
use roadwisefleet.Trip.Ingest.{Point}

-- The length of a text in units of 16 bits, as the language counts it.
unfoldable pub utf16_length : String → ℕ
utf16_length [] = 0
utf16_length (c ∷ s) = (if leb 65536 (code c) then 2 else 1) + utf16_length s

-- `Date.parse(text)`: a built-in; `none` where it gives no number.
abbrev pub DateParser : Type 0
DateParser = String → Option Number

-- `parseGpsTime(value)`
unfoldable pub parse_gps_time : DateParser → Value → Option Number
parse_gps_time parse (number n) = if is_finite n then some n else none
parse_gps_time parse (text s) =
    if trim s == ""
    then none
    else elim (parse s) [ none ↦ none | some n ↦ if is_finite n then some n else none ]
parse_gps_time parse _ = none

-- The milliseconds between the language's earliest date and 1970, and between 1970 and its last.
abbrev pub date_range : ℕ
date_range = 8640000000000000

-- `new Date(ms)`: `none` is the invalid date.
unfoldable pub date_of_ms : Number → Option Instant
date_of_ms (plus n) = if leb n (date_range * million) then some (date_range + n / million) else none
date_of_ms (minus n) =
    if ltb n (date_range * million) then some (date_range - (n + 1) / million) else none
date_of_ms _ = none

pub data PointError : Type 0 where
  object_required id_required id_too_long lat_out_of_range lng_out_of_range : PointError
  at_invalid at_in_future accuracy_invalid accuracy_out_of_range : PointError

pub data Parsed {ℓ} (A : Type ℓ) : Type ℓ where
  accepted : A → Parsed A
  rejected : PointError → Parsed A

infixl 5 ◌>>=◌
abbrev pub ◌>>=◌ {ℓ κ} : {A : Type ℓ} {B : Type κ} → Parsed A → (A → Parsed B) → Parsed B
accepted a >>= f = f a
rejected e >>= f = rejected e

-- `typeof id === 'string'`, not blank, and at most 128 units long
unfoldable pub parse_client_id : Value → Parsed String
parse_client_id (text s) =
    if trim s == ""
    then rejected id_required
    else if ltb 128 (utf16_length s)
    then rejected id_too_long
    else accepted s
parse_client_id _ = rejected id_required

-- `typeof x === 'number'`, finite, from -bound to bound
unfoldable pub parse_degrees : ℕ → PointError → Value → Parsed Number
parse_degrees bound e (number n) =
    if not (is_finite n) || below_minus n bound || above n bound then rejected e else accepted n
parse_degrees bound e _ = rejected e

-- `GPS_MAX_FUTURE_SKEW_MS`
abbrev pub max_future_skew_ms : ℕ
max_future_skew_ms = 600000

-- `GPS_MAX_ACCURACY_M`
abbrev pub max_accuracy_m : ℕ
max_accuracy_m = 100000

-- `at` of the point, with the tests on it.
unfoldable pub parse_at : DateParser → ℕ → Value → Parsed Number
parse_at parse now v = elim (parse_gps_time parse v) [
  | none ↦ rejected at_invalid
  | some n ↦ if above n (now + max_future_skew_ms) then rejected at_in_future else accepted n
]

-- `accuracyM` of the point: absent, or a number of metres from 0 to 100 000, rounded.
unfoldable pub parse_accuracy : Value → Parsed (Option ℕ)
parse_accuracy undefined = accepted none
parse_accuracy null = accepted none
parse_accuracy (number (plus n)) =
    if above (plus n) max_accuracy_m
    then rejected accuracy_out_of_range
    else accepted (some (round n))
parse_accuracy _ = rejected accuracy_invalid

-- `parseGpsPoint(raw, { now })`; a raw value that is no plain object is `none`.
unfoldable pub parse_gps_point : DateParser → ℕ → Option Fields → Parsed Point
parse_gps_point parse now none = rejected object_required
parse_gps_point parse now (some p) = do
  client_id ← parse_client_id (coalesce (p "id") (p "clientId"))
  lat ← parse_degrees 90 lat_out_of_range (p "lat")
  lng ← parse_degrees 180 lng_out_of_range (p "lng")
  at ← parse_at parse now (coalesce (coalesce (p "at") (p "atEpochMs")) (p "time"))
  accuracy_m ← parse_accuracy (coalesce (p "accuracyM") (p "accuracy"))
  accepted (record {
    client_id = client_id;
    lat = lat;
    lng = lng;
    at = date_of_ms at;
    accuracy_m = accuracy_m;
  })

pub Parsed-cases {ℓ} :
    {A : Type ℓ} (r : Parsed A)
    → ((e : PointError) × (r ≡ rejected e)) ⊎ ((a : A) × (r ≡ accepted a))
Parsed-cases (accepted a) = inr (a, refl)
Parsed-cases (rejected e) = inl (e, refl)
