-- ===== src/Trip/Refusals.antt =====
-- The refusals of the trip requests (apps/api/src/trips-core.js, trip-assignment.js).
use roadwisefleet.Prelude.{◌≡◌, Option, none, some, arith}
use roadwisefleet.Js.{Runtime}
use roadwisefleet.Trip.Tables.{Tables, Refusal, Reply, ok, refuse}
use roadwisefleet.Trip.Client.{TripsClient}
use roadwisefleet.Trip.Requests.{transition_trip, start_trip}
use roadwisefleet.Trip.Create.{create_trip}
use roadwisefleet.Trip.Assign.{assign_driver}
use roadwisefleet.Trip.Ingest.{ingest_gps_pings}
use roadwisefleet.Trip.Service.{Request, create, transition, start, assign, ingest, serve}

abbrev refusal {ℓ} : {A : Type ℓ} → Reply A → Option Refusal
refusal (ok a) = none
refusal (refuse e) = some e

module _ (c : TripsClient) (r : Runtime) (d : Tables) where
  -- The error that a request is answered with, if any.
  unfoldable pub refusal_of : Request → Option Refusal
  refusal_of (create org body actor) = refusal (create_trip c d r org body actor).0
  refusal_of (transition org id to actor now) = refusal (transition_trip c d org id to actor now).0
  refusal_of (start org id actor now) = refusal (start_trip c d org id actor now).0
  refusal_of (assign org id body actor now) = refusal (assign_driver c d org id body actor now).0
  refusal_of (ingest org id driver points) = refusal (ingest_gps_pings c d org id driver points).0

  -- A request that is refused leaves the tables as they were.
  pub refused_unchanged : (q : Request) (e : Refusal) → refusal_of q ≡ some e → serve c r d q ≡ d
  unfolding refusal_of serve create_trip transition_trip start_trip assign_driver ingest_gps_pings
  refused_unchanged (create org body actor) e h = ground arith
  refused_unchanged (transition org id to actor now) e h = ground arith
  refused_unchanged (start org id actor now) e h = ground arith
  refused_unchanged (assign org id body actor now) e h = ground arith
  refused_unchanged (ingest org id driver points) e h = ground arith
