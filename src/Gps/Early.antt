-- ===== src/Gps/Early.antt =====
-- Points before the language's earliest date (apps/api/src/gps-ingest.js).
use roadwisefleet.Prelude.{ℕ, ◌*◌, ◌≤◌, String, ◌≡◌, refl, Option, none, some, arith}
use roadwisefleet.Js.{Fields, Number, number, minus, million, coalesce}
use roadwisefleet.Trip.Ingest.{Point}
use roadwisefleet.Gps.Points.{
  DateParser, accepted, date_range, date_of_ms, parse_at, parse_gps_time, parse_gps_point,
  parse_client_id, parse_degrees, parse_accuracy, lat_out_of_range, lng_out_of_range,
}

-- A point with a good id, position and accuracy, and with a number of milliseconds further back
-- than any date, is accepted, and has no valid date.
pub early_accepted :
    (parse : DateParser) (now n : ℕ) (f : Fields) {id : String} {lat lng : Number}
    {accuracy : Option ℕ}
    → parse_client_id (coalesce (f "id") (f "clientId")) ≡ accepted id
    → parse_degrees 90 lat_out_of_range (f "lat") ≡ accepted lat
    → parse_degrees 180 lng_out_of_range (f "lng") ≡ accepted lng
    → parse_accuracy (coalesce (f "accuracyM") (f "accuracy")) ≡ accepted accuracy
    → coalesce (coalesce (f "at") (f "atEpochMs")) (f "time") ≡ number (minus n)
    → date_range * million ≤ n
    → (p : Point) × (parse_gps_point parse now (some f) ≡ accepted p) × (p.at ≡ none)
unfolding parse_gps_point parse_at parse_gps_time date_of_ms
early_accepted parse now n f {id} {lat} {lng} {accuracy} named at_lat at_lng precise e old = (
  record { client_id = id; lat = lat; lng = lng; at = none; accuracy_m = accuracy },
  ground arith,
  refl,
)
