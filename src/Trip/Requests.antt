-- ===== src/Trip/Requests.antt =====
-- The requests that move a trip: `driverHasActiveTrip`, `transitionTrip` and `startTrip` of
-- apps/api/src/trips-core.js, and `hasPodDocument` of apps/api/src/documents.js.
-- A request first reads and decides, and then writes in one transaction: `check_transition` and
-- `commit_transition` are these two halves, since other requests may run between them.
use roadwisefleet.Prelude.{
  String, Bool, true, false, not, ◌&&◌, Option, none, some, List, [], ◌∷◌, ltb, same, if◌then◌else◌,
}
use roadwisefleet.Auth.Permissions.{has_permission, can_transition_trip}
use roadwisefleet.Trip.Status.{
  TripStatus, assigned, delivered, pod_uploaded, ◌===◌, name, narrow, may_move,
  is_active_assignment, active_assignment_statuses, start_trip_status,
}
use roadwisefleet.Trip.Disruption.{requires_carrier_actor}
use roadwisefleet.Trip.Tables.{
  Instant, Trip, Tables, TripWhere, TripUpdate, Actor, actor_user, actor_permissions, truthy, Reply,
  ok, refuse, forbidden, not_found, invalid_status, invalid_transition, pod_required, driver_busy,
  no_update, ◌>>=◌, ◌>>◌, refuse_if, found,
}
use roadwisefleet.Trip.Client.{TripsClient}

-- `{ where: { id, orgId } }`
abbrev pub by_id : String → String → TripWhere
by_id id org_id = record {
  id = some id;
  org_id = org_id;
  driver_id = none;
  status_in = none;
  id_not = none;
}

-- The `where` of `driverHasActiveTrip`.
abbrev pub active_of : String → String → Option String → TripWhere
active_of org_id driver_id exclude = record {
  id = none;
  org_id = org_id;
  driver_id = some driver_id;
  status_in = some active_assignment_statuses;
  id_not = truthy exclude;
}

abbrev pub pod_doc_types : List String
pod_doc_types = "pod" ∷ "ecmr" ∷ []

abbrev pub pod_statuses : List String
pod_statuses = "UPLOADED" ∷ "VERIFIED" ∷ []

-- What the decision of a transition hands to its transaction.
pub record Move : Type 0 where
  pub trip : Trip
  pub target : TripStatus

-- The `updateData` of `transitionTrip`.
unfoldable pub update_data : TripStatus → Instant → TripUpdate
update_data target now =
    let plain = record no_update { status = some target } in
    let closed =
      (if target === delivered
        then record plain { delivered_at = some now; tracking = some false }
        else plain) in
    if target === start_trip_status
    then record closed { tracking = some true; tracking_started_at = some now }
    else closed

module _ (c : TripsClient) where
  -- `driverHasActiveTrip(prisma, { orgId, driverId, excludeTripId })`
  unfoldable pub driver_has_active_trip : Tables → String → Option String → Option String → Bool
  driver_has_active_trip d org_id driver_id exclude = elim (truthy driver_id) [
    | none ↦ false
    | some driver ↦ elim (c.find_trip (active_of org_id driver exclude) d) [
      | none ↦ false
      | some _ ↦ true
    ]
  ]

  -- `hasPodDocument(prisma, { tripId })`
  unfoldable pub has_pod_document : Tables → String → Bool
  has_pod_document d trip_id = ltb 0 (c.count_documents trip_id pod_doc_types pod_statuses d)

  -- `isActiveAssignment(target) && current.driverId` and the query behind it
  unfoldable pub double_books : Tables → String → String → Trip → TripStatus → Bool
  double_books d org_id trip_id current target =
      is_active_assignment target
      && driver_has_active_trip d org_id current.driver_id (some trip_id)

  -- `transitionTrip`, up to its transaction; `to` is the string of `String(to ?? '')`.
  unfoldable pub check_transition : Tables → String → String → String → Option Actor → Reply Move
  check_transition d org_id trip_id to actor = do
    current ← found (c.find_trip (by_id trip_id org_id) d) not_found
    refuse_if
        (not (can_transition_trip (actor_permissions actor) (actor_user actor) current.driver_id))
        forbidden
    target ← found (narrow to) invalid_status
    refuse_if (not (may_move current.status target)) (invalid_transition current.status target)
    refuse_if
        (requires_carrier_actor current.status target
          && not (has_permission (actor_permissions actor) "trip:*"))
        forbidden
    refuse_if (target === pod_uploaded && not (has_pod_document d trip_id)) pod_required
    refuse_if (double_books d org_id trip_id current target) driver_busy
    ok (record { trip = current; target = target })

  -- The transaction of `transitionTrip`.
  unfoldable pub commit_transition : Tables → String → Move → Option Actor → Instant → Trip × Tables
  unfolding update_data
  commit_transition d trip_id m actor now =
      let (trip, d') = c.update_trip trip_id (update_data m.target now) d in
      (
        trip,
        c.create_event
            (record {
              trip_id = trip_id;
              from_status = m.trip.status;
              to_status = m.target;
              actor_id = actor_user actor;
            })
            d',
      )

  -- `transitionTrip`
  unfoldable pub transition_trip :
      Tables → String → String → String → Option Actor → Instant → Reply Trip × Tables
  transition_trip d org_id trip_id to actor now =
      elim (check_transition d org_id trip_id to actor) [
        | refuse e ↦ (refuse e, d)
        | ok m ↦ let (trip, d') = commit_transition d trip_id m actor now in (ok trip, d')
      ]

  -- The tests of `startTrip` before its call of `transitionTrip`.
  unfoldable pub check_start : Tables → String → String → Option Actor → Reply (Unit {0})
  check_start d org_id trip_id actor = do
    current ← found (c.find_trip (by_id trip_id org_id) d) not_found
    user ← found (truthy (actor_user actor)) forbidden
    refuse_if (not (same (some user) current.driver_id)) forbidden
    refuse_if (not (current.status === assigned))
        (invalid_transition current.status start_trip_status)

  -- `startTrip`
  unfoldable pub start_trip :
      Tables → String → String → Option Actor → Instant → Reply Trip × Tables
  unfolding name
  start_trip d org_id trip_id actor now = elim (check_start d org_id trip_id actor) [
    | refuse e ↦ (refuse e, d)
    | ok _ ↦ transition_trip d org_id trip_id (name start_trip_status) actor now
  ]
