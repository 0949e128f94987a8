-- ===== src/Trip/Ingest.antt =====
-- Writing sampled positions: `ingestGpsPings` of apps/api/src/trips-core.js.
use roadwisefleet.Prelude.{ℕ, String, not, Option, some, List, length, map, same}
use roadwisefleet.Js.{Number}
use roadwisefleet.Trip.Tables.{
  Instant, GpsPing, Tables, truthy, Reply, ok, refuse, forbidden, not_found, tracking_off, ◌>>=◌,
  ◌>>◌, refuse_if, found,
}
use roadwisefleet.Trip.Client.{TripsClient}
use roadwisefleet.Trip.Requests.{by_id}

-- A point that the parser of the batch has accepted.
pub record Point : Type 0 where
  pub client_id : String
  pub lat : Number
  pub lng : Number
  pub at : Option Instant
  pub accuracy_m : Option ℕ

pub record Ingested : Type 0 where
  pub accepted : ℕ
  pub received : ℕ
  pub points : List Point

abbrev pub ping_row : String → Point → GpsPing
ping_row trip_id p = record {
  trip_id = trip_id;
  client_id = p.client_id;
  at = p.at;
  lat = p.lat;
  lng = p.lng;
  accuracy_m = p.accuracy_m;
}

module _ (c : TripsClient) where
  -- The tests of `ingestGpsPings`.
  unfoldable pub check_ingest : Tables → String → String → Option String → Reply (Unit {0})
  check_ingest d org_id trip_id driver_id = do
    trip ← found (c.find_trip (by_id trip_id org_id) d) not_found
    driver ← found (truthy driver_id) forbidden
    refuse_if (not (same (some driver) trip.driver_id)) forbidden
    refuse_if (not trip.tracking) tracking_off

  -- `ingestGpsPings`
  unfoldable pub ingest_gps_pings :
      Tables → String → String → Option String → List Point → Reply Ingested × Tables
  ingest_gps_pings d org_id trip_id driver_id points =
      elim (check_ingest d org_id trip_id driver_id) [
        | refuse e ↦ (refuse e, d)
        | ok _ ↦
            let rows = map (ping_row trip_id) points in
            let (count, d') = c.create_pings rows d in
            (ok (record { accepted = count; received = length rows; points = points }), d')
      ]
