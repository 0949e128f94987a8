-- ===== src/Tests/Trips.antt =====
-- Examples on trips: requests on the tables of the examples.
use mathlib.Core.List.{Memᴰ}
use roadwisefleet.Prelude.{
  ◌≤◌, ◌≡◌, ◌↔◌, ◌⊎◌, refl, true, false, some, List, [], ◌∷◌, eq_iff, any, ◌++◌, arith, same, find,
  map,
}
use roadwisefleet.Auth.Permissions.{has_permission, can_transition_trip}
use roadwisefleet.Trip.Status.{
  assigned, en_route, pod_uploaded, name, narrow, includes, may_move, is_active_assignment, settled,
}
use roadwisefleet.Trip.Disruption.{is_disruption, driver_reportable_endings, requires_carrier_actor}
use roadwisefleet.Trip.Tables.{Trip, actor_user, driver_busy, ok, refuse, invalid_transition}
use roadwisefleet.Trip.Client.{matches, updated, document_matches}
use roadwisefleet.Trip.Requests.{
  by_id, Move, pod_doc_types, pod_statuses, check_transition, commit_transition, transition_trip,
  start_trip, check_start, double_books, driver_has_active_trip, has_pod_document, update_data,
}
use roadwisefleet.Trip.Ingest.{Ingested, check_ingest, ingest_gps_pings}
use roadwisefleet.Trip.Rows.{count}
use roadwisefleet.Trip.Sound.{IsSound, assignments}
use roadwisefleet.Trip.Sound.Allowed.{IsAllowed}
use roadwisefleet.Trip.Sound.Ingest.{ingest_again}
use roadwisefleet.Trip.Memory.{memory, memory-IsLawful}
use roadwisefleet.Trip.Service.{Request, create, transition, start, ingest, serve, run, run-IsSound}
use roadwisefleet.Trip.Effects.{transition_ok_iff, pod_gate, driver_never_resumes, start_ok}
use roadwisefleet.Trip.Changes.{moved_row, transition_writes}
use roadwisefleet.Trip.Isolation.{serve_foreign}
use roadwisefleet.Trip.Refusals.{refusal_of, refused_unchanged}
use roadwisefleet.Trip.Race.{both_committed, to_assigned, race_double_books}
use roadwisefleet.Tests.Data.{
  tables, tables-IsSound, runtime, dispatcher, driver_actor, draft_1, draft_2, done_trip,
  foreign_trip, ready_trip, new_trip, point,
}

abbrev requests : List Request
requests =
    create "o1" (some new_trip) dispatcher
    ∷ transition "o1" "t1" "ASSIGNED" dispatcher 20
    ∷ transition "o1" "t2" "ASSIGNED" dispatcher 21
    ∷ start "o1" "t1" (driver_actor "d1") 22
    ∷ ingest "o1" "t1" (some "d1") (point "p1" ∷ [])
    ∷ transition "o1" "t3" "POD_UPLOADED" (driver_actor "d2") 23
    ∷ []

run-IsSound_example : IsSound (run memory runtime tables requests)
run-IsSound_example = run-IsSound memory runtime memory-IsLawful tables requests tables-IsSound

transition_ok_iff_example :
    ((t : Trip) × ((transition_trip memory tables "o1" "t1" "ASSIGNED" dispatcher 20).0 ≡ ok t))
    ↔ ((m : Move) × IsAllowed memory tables "o1" "t1" "ASSIGNED" dispatcher m)
transition_ok_iff_example = transition_ok_iff memory tables "o1" "t1" "ASSIGNED" dispatcher 20

serve_foreign_example :
    Memᴰ foreign_trip
      (serve memory runtime tables (transition "o1" "t5" "IN_TRANSIT" dispatcher 20)).trips
serve_foreign_example =
    serve_foreign memory memory-IsLawful runtime tables
      (transition "o1" "t5" "IN_TRANSIT" dispatcher 20) foreign_trip tables-IsSound
      (Memᴰ.tail (Memᴰ.tail (Memᴰ.tail (Memᴰ.tail (Memᴰ.head refl)))))
      (λ e. ground (arith, eq_iff "o2" "o1"))

abbrev skip_ahead : Request
skip_ahead = transition "o1" "t4" "SETTLED" dispatcher 20

skip_ahead_refused :
    refusal_of memory runtime tables skip_ahead ≡ some (invalid_transition en_route settled)
unfolding transition_trip check_transition commit_transition memory find matches may_move narrow
    can_transition_trip has_permission double_books driver_has_active_trip update_data updated
    requires_carrier_actor is_active_assignment refusal_of
skip_ahead_refused = refl

refused_unchanged_example : serve memory runtime tables skip_ahead ≡ tables
refused_unchanged_example =
    refused_unchanged memory runtime tables skip_ahead (invalid_transition en_route settled)
      skip_ahead_refused

abbrev written : Ingested
written = record { accepted = 1; received = 1; points = point "p1" ∷ [] }

batch_written :
    (ingest_gps_pings memory tables "o1" "t4" (some "d3") (point "p1" ∷ [])).0 ≡ ok written
unfolding ingest_gps_pings check_ingest memory
batch_written = refl

ingest_again_example :
    let d = (ingest_gps_pings memory tables "o1" "t4" (some "d3") (point "p1" ∷ [])).1 in
    ingest_gps_pings memory d "o1" "t4" (some "d3") (point "p1" ∷ [])
    ≡ (ok (record written { accepted = 0 }), d)
ingest_again_example =
    ingest_again memory memory-IsLawful tables tables-IsSound "o1" "t4" (some "d3")
      (point "p1" ∷ []) written batch_written

race_double_books_example :
    (check_transition memory tables "o1" "t1" (name assigned) dispatcher ≡ ok (to_assigned draft_1))
    × (check_transition memory tables "o1" "t2" (name assigned) dispatcher
        ≡ ok (to_assigned draft_2))
    × (2
        ≤ assignments "o1" "d1"
            (both_committed memory tables "t1"
              (to_assigned draft_1)
              "t2"
              (to_assigned draft_2)
              dispatcher
              20).trips)
unfolding assignments count matches includes has_permission
race_double_books_example =
    race_double_books memory memory-IsLawful tables tables-IsSound "o1" "d1" refl dispatcher refl
      draft_1 draft_2 20
      (record { stands = Memᴰ.head refl; in_org = refl; by_driver = refl; is_draft = refl })
      (record {
        stands = Memᴰ.tail (Memᴰ.head refl);
        in_org = refl;
        by_driver = refl;
        is_draft = refl;
      })
      (λ e. ground (arith, eq_iff "t1" "t2"))

abbrev with_pod : Trip
with_pod = record done_trip { status = pod_uploaded }

pod_accepted :
    (transition_trip memory tables "o1" "t3" (name pod_uploaded) (driver_actor "d2") 23).0
    ≡ ok with_pod
unfolding transition_trip check_transition commit_transition memory find matches may_move narrow
    can_transition_trip has_permission double_books driver_has_active_trip update_data updated
    requires_carrier_actor is_active_assignment has_pod_document name
pod_accepted = refl

transition_writes_example :
    (m : Move) × (memory.find_trip (by_id "t3" "o1") tables ≡ some m.trip)
    × (narrow (name pod_uploaded) ≡ some m.target)
    × ((transition_trip memory tables "o1" "t3" (name pod_uploaded) (driver_actor "d2") 23).1
        ≡ record tables {
          trips = map (moved_row "t3" m.target 23) tables.trips;
          events =
              tables.events
              ++ record {
                trip_id = "t3";
                from_status = m.trip.status;
                to_status = m.target;
                actor_id = some "d2";
              }
                ∷ [];
        })
transition_writes_example =
    transition_writes memory memory-IsLawful tables "o1" "t3" (name pod_uploaded)
      (driver_actor "d2") 23 with_pod pod_accepted

pod_gate_example : any (document_matches "t3" pod_doc_types pod_statuses) tables.documents ≡ true
pod_gate_example =
    pod_gate memory memory-IsLawful tables "o1" "t3" (driver_actor "d2") 23 with_pod pod_accepted

driver_never_resumes_example :
    (m : Move) × (memory.find_trip (by_id "t3" "o1") tables ≡ some m.trip)
    × (narrow (name pod_uploaded) ≡ some m.target)
    × (same (actor_user (driver_actor "d2")) m.trip.driver_id ≡ true)
    × (is_disruption m.trip.status ≡ false)
    × ((is_disruption m.target ≡ false) ⊎ (includes driver_reportable_endings m.target ≡ true))
unfolding has_permission
driver_never_resumes_example =
    driver_never_resumes memory tables "o1" "t3" (name pod_uploaded) (driver_actor "d2") 23 with_pod
      refl pod_accepted

abbrev started : Trip
started = record ready_trip { status = en_route; tracking = true; tracking_started_at = some 24 }

trip_started : (start_trip memory tables "o1" "t6" (driver_actor "d4") 24).0 ≡ ok started
unfolding transition_trip check_transition commit_transition memory find matches may_move narrow
    can_transition_trip has_permission double_books driver_has_active_trip update_data updated
    requires_carrier_actor is_active_assignment start_trip check_start name
trip_started = refl

start_ok_example :
    (current : Trip) × (memory.find_trip (by_id "t6" "o1") tables ≡ some current)
    × (current.status ≡ assigned)
    × (same (actor_user (driver_actor "d4")) current.driver_id ≡ true)
    × (start_trip memory tables "o1" "t6" (driver_actor "d4") 24
        ≡ transition_trip memory tables "o1" "t6" (name en_route) (driver_actor "d4") 24)
start_ok_example = start_ok memory tables "o1" "t6" (driver_actor "d4") 24 started trip_started

-- A driver with an active trip is not given another one.
busy_refused :
    (transition_trip memory
      (transition_trip memory tables "o1" "t1" "ASSIGNED" dispatcher 20).1
      "o1"
      "t2"
      "ASSIGNED"
      dispatcher
      21).0
    ≡ refuse driver_busy
unfolding transition_trip check_transition commit_transition memory find matches may_move narrow
    can_transition_trip has_permission double_books driver_has_active_trip update_data updated
    requires_carrier_actor is_active_assignment
busy_refused = refl
