-- ===== src/Trip/Sound/Assign.antt =====
-- `assignDriver` (apps/api/src/trip-assignment.js): when it succeeds, and that it keeps the tables
-- sound.
use mathlib.Core.Path.{subst}
use roadwisefleet.Prelude.{
  String, ◌≡◌, ◌≢◌, refl, sym, true, false, ◌&&◌, Option, none, some, any, arith, inl, inr, same,
}
use roadwisefleet.Js.{Fields}
use roadwisefleet.Trip.Status.{has_no_exit, is_active_assignment}
use roadwisefleet.Trip.Lifecycle.{status_refl}
use roadwisefleet.Trip.Tables.{
  Instant, Trip, StatusEvent, Tables, TripUpdate, no_update, Actor, actor_user, actor_permissions,
  Reply-cases, ok,
}
use roadwisefleet.Trip.Client.{TripsClient, IsLawful, matches, updated}
use roadwisefleet.Trip.Requests.{by_id, active_of, driver_has_active_trip}
use roadwisefleet.Trip.Assign.{
  Assignment, can_assign_driver, is_driver_available, parse_assignment_input, check_assign,
  commit_assign, assign_driver,
}
use roadwisefleet.Trip.Sound.{RowIsSound, IsSound, records_move}
use roadwisefleet.Trip.Sound.Update.{after, update-IsSound}
use roadwisefleet.Trip.Sound.Allowed.{found_row, not_busy_free, held_by}

-- What an assignment has been checked for.
pub record IsAssignable (c : TripsClient) (d : Tables) (org_id trip_id : String)
    (body : Option Fields) (actor : Option Actor) (now : Instant) (a : Assignment) : Type 0 where
  pub authorized : can_assign_driver (actor_permissions actor) ≡ true
  pub is_body : parse_assignment_input body ≡ ok a.driver_id
  pub is_found : c.find_trip (by_id trip_id org_id) d ≡ some a.trip
  pub is_open : has_no_exit a.trip.status ≡ false
  pub is_new : same a.trip.driver_id (some a.driver_id) ≡ false
  pub is_user : c.find_user a.driver_id org_id d ≡ some a.driver
  pub is_available : is_driver_available a.driver now ≡ true
  pub not_busy :
      (is_active_assignment a.trip.status
        && driver_has_active_trip c d org_id (some a.driver_id) (some trip_id))
      ≡ false

module _ (c : TripsClient) (d : Tables) (org_id trip_id : String) (body : Option Fields)
    (actor : Option Actor) (now : Instant) (a : Assignment) where
  pub check_assign-IsAssignable :
      check_assign c d org_id trip_id body actor now ≡ ok a
      → IsAssignable c d org_id trip_id body actor now a
  unfolding check_assign
  check_assign-IsAssignable h = record {
    authorized = ground arith;
    is_body = ground arith;
    is_found = ground arith;
    is_open = ground arith;
    is_new = ground arith;
    is_user = ground arith;
    is_available = ground arith;
    not_busy = ground arith;
  }

row-assign :
    (t : Trip) (driver : String)
    → RowIsSound t
    → RowIsSound (updated (record no_update { driver_id = some driver }) t)
unfolding updated
row-assign t driver h = ground arith

-- The event that an assignment writes.
abbrev pub event : String → Trip → Option Actor → StatusEvent
event trip_id t actor = record {
  trip_id = trip_id;
  from_status = t.status;
  to_status = t.status;
  actor_id = actor_user actor;
}

abbrev pub new_driver : String → TripUpdate
new_driver driver = record no_update { driver_id = some driver }

module _ (c : TripsClient) (lawful : IsLawful c) (d : Tables) (org_id trip_id : String)
    (body : Option Fields) (actor : Option Actor) (now : Instant) (a : Assignment)
    (allowed : IsAssignable c d org_id trip_id body actor now a) where
  -- The tables after the transaction of an assignment.
  pub commit_assign-after :
      (commit_assign c d trip_id a actor).1
      ≡ after d trip_id (new_driver a.driver_id) (event trip_id a.trip actor)
  unfolding commit_assign
  commit_assign-after = rw (lawful.create_event_tables, lawful.update_trip_tables)

  free_after :
      (o k : String)
      → k ≢ ""
      → matches (active_of o k none) (updated (new_driver a.driver_id) a.trip) ≡ true
      → any (matches (active_of o k (some a.trip.id))) d.trips ≡ false
  unfolding updated
  free_after o k real holds =
      let (in_org, by_driver, active) =
        held_by o k (updated (new_driver a.driver_id) a.trip) holds in
      let (stands, own_id, own_org) = found_row lawful allowed.is_found in
      let busy : driver_has_active_trip c d o (some k) (some trip_id) ≡ false =
        ground (arith, allowed.not_busy) in
      rw own_id (not_busy_free lawful d o k trip_id real busy)

  pub commit_assign-IsSound : IsSound d → IsSound (commit_assign c d trip_id a actor).1
  unfolding records_move
  commit_assign-IsSound sound =
      let (stands, own_id, own_org) = found_row lawful allowed.is_found in
      rw commit_assign-after (
        subst (λ x. IsSound (after d x (new_driver a.driver_id) (event trip_id a.trip actor)))
          own_id
          (update-IsSound d a.trip (new_driver a.driver_id) (event trip_id a.trip actor) sound
            stands (sym own_id) refl refl (ground (arith, status_refl a.trip.status))
            (row-assign a.trip a.driver_id) free_after))

-- Whatever its arguments, an assignment keeps the tables sound.
pub assign_driver-IsSound :
    (c : TripsClient)
    → IsLawful c
    → (d : Tables) (org_id trip_id : String) (body : Option Fields) (actor : Option Actor)
      (now : Instant)
    → IsSound d
    → IsSound (assign_driver c d org_id trip_id body actor now).1
unfolding assign_driver
assign_driver-IsSound c lawful d org_id trip_id body actor now sound =
    elim (Reply-cases (check_assign c d org_id trip_id body actor now)) [
      | inl (e, refused) ↦ rw (refused, assign_driver) sound
      | inr (a, checked) ↦
          rw (checked, assign_driver)
            (commit_assign-IsSound c lawful d org_id trip_id body actor now a
              (check_assign-IsAssignable c d org_id trip_id body actor now a checked) sound)
    ]
