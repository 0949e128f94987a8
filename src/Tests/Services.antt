-- ===== src/Tests/Services.antt =====
-- Examples on the limiter and the batches of points.
use roadwisefleet.Prelude.{
  ◌≤◌, ◌+◌, ◌*◌, String, ◌≡◌, refl, none, some, List, [], ◌∷◌, ◌==◌, arith, length, if◌then◌else◌,
  filter, any,
}
use roadwisefleet.Prelude.Text.{trim}
use roadwisefleet.Js.{plus, minus, undefined, number, text, Fields, million}
use roadwisefleet.Trip.Ingest.{Point}
use roadwisefleet.Limit.Window.{
  Limits, bucket_of, check, verdict, open_bucket, prune, trim_buckets, count_hit,
}
use roadwisefleet.Limit.Quota.{Hit, allowed_hits, window_quota}
use roadwisefleet.Gps.Points.{
  DateParser, accepted, parse_client_id, utf16_length, parse_degrees, parse_at, parse_accuracy,
  parse_gps_point, date_range, date_of_ms, parse_gps_time,
}
use roadwisefleet.Gps.Batch.{Batch, batch, points, parse_gps_batch, collect}
use roadwisefleet.Gps.Laws.{IsBatch, parse_gps_batch-IsBatch}
use roadwisefleet.Gps.Early.{early_accepted}
use roadwisefleet.Tests.Data.{point}

abbrev small : Limits
small = record { window_ms = 100; max_hits = 2; max_keys = 3 }

abbrev hits : List Hit
hits =
    record { at = 10; key = "a" }
    ∷ record { at = 20; key = "a" }
    ∷ record { at = 30; key = "a" }
    ∷ []

window_quota_example : allowed_hits small "a" hits [] ≤ 2
unfolding bucket_of
window_quota_example =
    window_quota small "a" 10 hits [] refl
      ((omega arith, omega arith), ((omega arith, omega arith), ((omega arith, omega arith), tt)))
      (omega arith)

-- The quota is used up.
quota_reached : allowed_hits small "a" hits [] ≡ 2
unfolding allowed_hits check bucket_of verdict open_bucket prune filter trim_buckets count_hit
quota_reached = refl

abbrev no_parser : DateParser
no_parser s = none

-- `{ id, lat: 52, lng: 13, at: 9 }`
abbrev raw_point : String → Fields
raw_point id key =
    if key == "id"
    then text id
    else if key == "lat"
    then number (plus 52000000)
    else if key == "lng"
    then number (plus 13000000)
    else if key == "at"
    then number (plus 9000000)
    else undefined

abbrev sampled : String → Point
sampled id = record (point id) { at = some (date_range + 9) }

abbrev sample : Batch
sample = record { points = sampled "p1" ∷ sampled "p2" ∷ []; duplicates = 1 }

sample_parsed :
    parse_gps_batch no_parser 1000 5
      (points (some (raw_point "p1") ∷ some (raw_point "p2") ∷ some (raw_point "p1") ∷ []))
    ≡ batch sample
unfolding parse_gps_batch collect parse_gps_point parse_client_id trim utf16_length parse_degrees
    parse_at parse_gps_time parse_accuracy any date_of_ms
sample_parsed = refl

parse_gps_batch-IsBatch_example : IsBatch 3 sample × (length sample.points ≤ 5)
parse_gps_batch-IsBatch_example =
    parse_gps_batch-IsBatch no_parser 1000 5
      (some (raw_point "p1") ∷ some (raw_point "p2") ∷ some (raw_point "p1") ∷ []) sample
      sample_parsed

-- As `raw_point`, long before the earliest date.
abbrev ancient : Fields
ancient key = if key == "at" then number (minus (date_range * million)) else raw_point "p1" key

early_accepted_example :
    (p : Point) × (parse_gps_point no_parser 1000 (some ancient) ≡ accepted p) × (p.at ≡ none)
unfolding parse_client_id trim utf16_length parse_degrees parse_accuracy
early_accepted_example =
    early_accepted no_parser 1000 (date_range * million) ancient {id = "p1"} {lat = plus 52000000}
      {lng = plus 13000000} {accuracy = none} refl refl refl refl refl (omega arith)
