-- ===== src/Trip/Sound/Transition.antt =====
-- `transitionTrip` and `startTrip` (apps/api/src/trips-core.js): when they succeed, and that they
-- keep the tables sound.
use mathlib.Core.Path.{subst}
use roadwisefleet.Prelude.{
  String, ◌≡◌, ◌≢◌, refl, sym, true, false, Option, none, some, any, arith, inl, inr,
}
use roadwisefleet.Trip.Status.{TripStatus, may_move}
use roadwisefleet.Trip.Tables.{Instant, Trip, StatusEvent, Tables, Actor, actor_user, Reply-cases}
use roadwisefleet.Trip.Client.{TripsClient, IsLawful, matches, updated}
use roadwisefleet.Trip.Requests.{
  active_of, Move, update_data, driver_has_active_trip, double_books, check_transition,
  commit_transition, transition_trip, check_start, start_trip,
}
use roadwisefleet.Trip.Sound.{RowIsSound, IsSound, records_move}
use roadwisefleet.Trip.Sound.Allowed.{
  IsAllowed, check_transition-IsAllowed, found_row, not_busy_free, held_by,
}
use roadwisefleet.Trip.Sound.Update.{after, update-IsSound}

-- The row after a legal move.
row-transition :
    (t : Trip) (target : TripStatus) (now : Instant)
    → may_move t.status target ≡ true
    → RowIsSound t
    → RowIsSound (updated (update_data target now) t)
unfolding may_move update_data updated
row-transition t target now m h = ground arith

target_status :
    (t : Trip) (target : TripStatus) (now : Instant)
    → (updated (update_data target now) t).status ≡ target
unfolding update_data updated
target_status t target now = ground arith

same_driver :
    (t : Trip) (target : TripStatus) (now : Instant)
    → (updated (update_data target now) t).driver_id ≡ t.driver_id
unfolding update_data updated
same_driver t target now = ground arith

same_org :
    (t : Trip) (target : TripStatus) (now : Instant)
    → (updated (update_data target now) t).org_id ≡ t.org_id
unfolding updated
same_org t target now = refl

status_of_update :
    (target : TripStatus) (now : Instant) → (update_data target now).status ≡ some target
unfolding update_data
status_of_update target now = ground arith

-- The event that a transition writes.
abbrev pub event : String → Move → Option Actor → StatusEvent
event trip_id m actor = record {
  trip_id = trip_id;
  from_status = m.trip.status;
  to_status = m.target;
  actor_id = actor_user actor;
}

module _ (c : TripsClient) (lawful : IsLawful c) (d : Tables) (org_id trip_id to : String)
    (actor : Option Actor) (m : Move) (allowed : IsAllowed c d org_id trip_id to actor m) where
  -- The tables after the transaction of a transition.
  pub commit_transition-after :
      (now : Instant)
      → (commit_transition c d trip_id m actor now).1
        ≡ after d trip_id (update_data m.target now) (event trip_id m actor)
  unfolding commit_transition
  commit_transition-after now = rw (lawful.create_event_tables, lawful.update_trip_tables)

  free_after :
      (now : Instant) (o k : String)
      → k ≢ ""
      → matches (active_of o k none) (updated (update_data m.target now) m.trip) ≡ true
      → any (matches (active_of o k (some m.trip.id))) d.trips ≡ false
  unfolding double_books
  free_after now o k real holds =
      let (in_org, by_driver, active) =
        held_by o k (updated (update_data m.target now) m.trip) holds in
      let (stands, own_id, own_org) = found_row lawful allowed.is_found in
      let busy : driver_has_active_trip c d o (some k) (some trip_id) ≡ false = ground (
        arith,
        target_status m.trip m.target now,
        same_driver m.trip m.target now,
        same_org m.trip m.target now,
        allowed.not_busy,
      ) in
      rw own_id (not_busy_free lawful d o k trip_id real busy)

  pub commit_transition-IsSound :
      (now : Instant) → IsSound d → IsSound (commit_transition c d trip_id m actor now).1
  unfolding records_move
  commit_transition-IsSound now sound =
      let (stands, own_id, own_org) = found_row lawful allowed.is_found in
      rw (commit_transition-after now) (
        subst (λ x. IsSound (after d x (update_data m.target now) (event trip_id m actor))) own_id
          (update-IsSound d m.trip (update_data m.target now) (event trip_id m actor) sound stands
            (sym own_id) refl (rw (status_of_update m.target now)) (rw allowed.legal)
            (row-transition m.trip m.target now allowed.legal) (free_after now)))

-- Whatever its arguments, a transition keeps the tables sound.
pub transition_trip-IsSound :
    (c : TripsClient)
    → IsLawful c
    → (d : Tables) (org_id trip_id to : String) (actor : Option Actor) (now : Instant) → IsSound d
    → IsSound (transition_trip c d org_id trip_id to actor now).1
unfolding transition_trip
transition_trip-IsSound c lawful d org_id trip_id to actor now sound =
    elim (Reply-cases (check_transition c d org_id trip_id to actor)) [
      | inl (e, refused) ↦ rw (refused, transition_trip) sound
      | inr (m, checked) ↦
          rw (checked, transition_trip)
            (commit_transition-IsSound c lawful d org_id trip_id to actor m
              (check_transition-IsAllowed c d org_id trip_id to actor m checked) now sound)
    ]

-- Whatever its arguments, a start keeps the tables sound.
pub start_trip-IsSound :
    (c : TripsClient)
    → IsLawful c
    → (d : Tables) (org_id trip_id : String) (actor : Option Actor) (now : Instant) → IsSound d
    → IsSound (start_trip c d org_id trip_id actor now).1
unfolding start_trip
start_trip-IsSound c lawful d org_id trip_id actor now sound =
    elim (Reply-cases (check_start c d org_id trip_id actor)) [
      | inl (e, refused) ↦ rw (refused, start_trip) sound
      | inr (_, checked) ↦
          rw (checked, start_trip)
            (transition_trip-IsSound c lawful d org_id trip_id "EN_ROUTE" actor now sound)
    ]
