-- ===== src/Trip/Assign.antt =====
-- Changing a trip's driver: apps/api/src/trip-assignment.js.
use roadwisefleet.Prelude.{
  String, Bool, true, false, not, ◌&&◌, Option, none, some, ◌==◌, is_some, leb, same, if◌then◌else◌,
}
use roadwisefleet.Js.{Fields}
use roadwisefleet.Auth.Permissions.{Granted, has_permission}
use roadwisefleet.Trip.Status.{has_no_exit, is_active_assignment}
use roadwisefleet.Trip.Tables.{
  Instant, Trip, User, Tables, Actor, actor_user, actor_permissions, truthy, no_update, Reply, ok,
  refuse, forbidden, invalid_input, not_found, trip_closed, already_assigned, driver_not_found,
  driver_unavailable, driver_busy, ◌>>=◌, ◌>>◌, refuse_if, found,
}
use roadwisefleet.Trip.Client.{TripsClient}
use roadwisefleet.Trip.Requests.{by_id, driver_has_active_trip}
use roadwisefleet.Trip.Create.{trimmed}

-- `isDriverAvailable(user, { now })`, for a row of the database, whose dates are valid.
unfoldable pub is_driver_available : User → Instant → Bool
is_driver_available user now =
    if not (user.role_id == "driver")
    then false
    else elim user.locked_until [ none ↦ true | some until ↦ leb until now ]

-- `canAssignDriver(granted)`
unfoldable pub can_assign_driver : Granted → Bool
unfolding has_permission
can_assign_driver granted = has_permission granted "trip:assign"

-- `parseAssignmentInput(body)`
unfoldable pub parse_assignment_input : Option Fields → Reply String
unfolding trimmed
parse_assignment_input body = do
  b ← found body (invalid_input "body must be an object")
  found (truthy (some (trimmed (b "driverId")))) (invalid_input "driverId is required")

pub record Assignment : Type 0 where
  pub trip : Trip
  pub driver_id : String
  pub driver : User

-- What `assignDriver` returns: the trip, the new driver's id and name, and the previous driver.
pub record Assigned : Type 0 where
  pub trip : Trip
  pub driver_id : String
  pub driver_name : Option String
  pub previous_driver_id : Option String

module _ (c : TripsClient) where
  -- `assignDriver`, up to its transaction.
  unfoldable pub check_assign :
      Tables → String → String → Option Fields → Option Actor → Instant → Reply Assignment
  unfolding parse_assignment_input is_driver_available can_assign_driver
  check_assign d org_id trip_id body actor now = do
    refuse_if (not (is_some actor)) forbidden
    refuse_if (not (can_assign_driver (actor_permissions actor))) forbidden
    driver_id ← parse_assignment_input body
    current ← found (c.find_trip (by_id trip_id org_id) d) not_found
    refuse_if (has_no_exit current.status) trip_closed
    refuse_if (same current.driver_id (some driver_id)) already_assigned
    driver ← found (c.find_user driver_id org_id d) driver_not_found
    refuse_if (not (is_driver_available driver now)) driver_unavailable
    refuse_if
        (is_active_assignment current.status
          && driver_has_active_trip c d org_id (some driver_id) (some trip_id))
        driver_busy
    ok (record { trip = current; driver_id = driver_id; driver = driver })

  -- The transaction of `assignDriver`: the trip, and an event that keeps its status.
  unfoldable pub commit_assign : Tables → String → Assignment → Option Actor → Trip × Tables
  commit_assign d trip_id a actor =
      let (trip, d') =
        c.update_trip trip_id (record no_update { driver_id = some a.driver_id }) d in
      (
        trip,
        c.create_event
            (record {
              trip_id = trip_id;
              from_status = a.trip.status;
              to_status = a.trip.status;
              actor_id = actor_user actor;
            })
            d',
      )

  -- `assignDriver`
  unfoldable pub assign_driver :
      Tables → String → String → Option Fields → Option Actor → Instant → Reply Assigned × Tables
  assign_driver d org_id trip_id body actor now =
      elim (check_assign d org_id trip_id body actor now) [
        | refuse e ↦ (refuse e, d)
        | ok a ↦
            let (trip, d') = commit_assign d trip_id a actor in
            (
              ok (record {
                trip = trip;
                driver_id = a.driver.id;
                driver_name = a.driver.name;
                previous_driver_id = a.trip.driver_id;
              }),
              d',
            )
      ]
