-- ===== src/Trip/Service.antt =====
-- Requests on trips, one after another: the routes' calls into apps/api/src/trips-core.js and
-- apps/api/src/trip-assignment.js.
use roadwisefleet.Prelude.{String, Option, List, [], ◌∷◌}
use roadwisefleet.Js.{Fields, Runtime}
use roadwisefleet.Trip.Tables.{Instant, Tables, Actor}
use roadwisefleet.Trip.Client.{TripsClient, IsLawful}
use roadwisefleet.Trip.Requests.{transition_trip, start_trip}
use roadwisefleet.Trip.Create.{create_trip}
use roadwisefleet.Trip.Assign.{assign_driver}
use roadwisefleet.Trip.Ingest.{Point, ingest_gps_pings}
use roadwisefleet.Trip.Sound.{IsSound}
use roadwisefleet.Trip.Sound.Transition.{transition_trip-IsSound, start_trip-IsSound}
use roadwisefleet.Trip.Sound.Assign.{assign_driver-IsSound}
use roadwisefleet.Trip.Sound.Create.{create_trip-IsSound}
use roadwisefleet.Trip.Sound.Ingest.{ingest_gps_pings-IsSound}

-- The calls that change the tables, with the organisation of the caller's token.
pub data Request : Type 0 where
  create : String → Option Fields → Option Actor → Request
  transition : String → String → String → Option Actor → Instant → Request
  start : String → String → Option Actor → Instant → Request
  assign : String → String → Option Fields → Option Actor → Instant → Request
  ingest : String → String → Option String → List Point → Request

module _ (c : TripsClient) (r : Runtime) where
  unfoldable pub serve : Tables → Request → Tables
  serve d (create org body actor) = (create_trip c d r org body actor).1
  serve d (transition org id to actor now) = (transition_trip c d org id to actor now).1
  serve d (start org id actor now) = (start_trip c d org id actor now).1
  serve d (assign org id body actor now) = (assign_driver c d org id body actor now).1
  serve d (ingest org id driver points) = (ingest_gps_pings c d org id driver points).1

  unfoldable pub run : Tables → List Request → Tables
  run d [] = d
  run d (q ∷ qs) = run (serve d q) qs

  serve-IsSound : IsLawful c → (d : Tables) (q : Request) → IsSound d → IsSound (serve d q)
  unfolding serve
  serve-IsSound l d (create org body actor) s = create_trip-IsSound c l d r org body actor s
  serve-IsSound l d (transition org id to actor now) s =
      transition_trip-IsSound c l d org id to actor now s
  serve-IsSound l d (start org id actor now) s = start_trip-IsSound c l d org id actor now s
  serve-IsSound l d (assign org id body actor now) s =
      assign_driver-IsSound c l d org id body actor now s
  serve-IsSound l d (ingest org id driver points) s =
      ingest_gps_pings-IsSound c l d org id driver points s

  -- Over a database client that behaves as documented, any requests, one after another, keep the
  -- tables sound: the keys are unique, a driver holds at most one active trip of an organisation,
  -- every trip's tracking flag and delivery instant fit its status, and every trip's events lead
  -- step by step from DRAFT to its status.
  pub run-IsSound : IsLawful c → (d : Tables) (qs : List Request) → IsSound d → IsSound (run d qs)
  unfolding run
  run-IsSound l d [] s = s
  run-IsSound l d (q ∷ qs) s = run-IsSound l (serve d q) qs (serve-IsSound l d q s)
