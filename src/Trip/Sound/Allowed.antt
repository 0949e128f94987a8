-- ===== src/Trip/Sound/Allowed.antt =====
-- When `transitionTrip` (apps/api/src/trips-core.js) is allowed, and what its queries tell.
use mathlib.Core.List.{Memᴰ}
use roadwisefleet.Prelude.{
  String, ◌≡◌, ◌≢◌, true, false, Option, none, some, ◌==◌, eq_iff, any, arith, same, Bool-cases,
  inl, inr,
}
use roadwisefleet.Auth.Permissions.{has_permission, can_transition_trip}
use roadwisefleet.Trip.Status.{narrow, may_move, pod_uploaded, is_active_assignment}
use roadwisefleet.Trip.Disruption.{requires_carrier_actor}
use roadwisefleet.Trip.Lifecycle.{status_refl, status_eq}
use roadwisefleet.Trip.Tables.{Trip, Tables, Actor, actor_user, actor_permissions, ok}
use roadwisefleet.Trip.Client.{TripsClient, IsLawful, matches}
use roadwisefleet.Trip.Requests.{
  by_id, active_of, Move, driver_has_active_trip, has_pod_document, double_books, check_transition,
}
use roadwisefleet.Trip.Rows.{any_mono}

-- What a transition has been checked for.
pub record IsAllowed (c : TripsClient) (d : Tables) (org_id trip_id to : String)
    (actor : Option Actor) (m : Move) : Type 0 where
  pub is_found : c.find_trip (by_id trip_id org_id) d ≡ some m.trip
  pub authorized :
      can_transition_trip (actor_permissions actor) (actor_user actor) m.trip.driver_id ≡ true
  pub is_target : narrow to ≡ some m.target
  pub legal : may_move m.trip.status m.target ≡ true
  pub by_carrier :
      requires_carrier_actor m.trip.status m.target ≡ true
      → has_permission (actor_permissions actor) "trip:*" ≡ true
  pub has_pod : m.target ≡ pod_uploaded → has_pod_document c d trip_id ≡ true
  pub not_busy : double_books c d org_id trip_id m.trip m.target ≡ false

module _ (c : TripsClient) (d : Tables) (org_id trip_id to : String) (actor : Option Actor)
    (m : Move) where
  pub check_transition-IsAllowed :
      check_transition c d org_id trip_id to actor ≡ ok m → IsAllowed c d org_id trip_id to actor m
  unfolding check_transition
  check_transition-IsAllowed h = record {
    is_found = ground arith;
    authorized = ground arith;
    is_target = ground arith;
    legal = ground arith;
    by_carrier = λ k. ground arith;
    has_pod = λ k. ground (arith, status_refl pod_uploaded);
    not_busy = ground arith;
  }

  pub IsAllowed-check_transition :
      IsAllowed c d org_id trip_id to actor m → check_transition c d org_id trip_id to actor ≡ ok m
  unfolding check_transition
  IsAllowed-check_transition h = ground (arith, status_eq m.target pod_uploaded)

-- The row that the query by id finds.
pub found_row :
    {c : TripsClient} (lawful : IsLawful c) {d : Tables} {org_id trip_id : String} {t : Trip}
    → c.find_trip (by_id trip_id org_id) d ≡ some t
    → Memᴰ t d.trips × (t.id ≡ trip_id) × (t.org_id ≡ org_id)
unfolding matches
found_row lawful {d} {org_id} {trip_id} {t} h =
    let (stands, fits) = lawful.find_trip_some (by_id trip_id org_id) d t h in
    (stands, ground (arith, eq_iff t.id trip_id), ground (arith, eq_iff t.org_id org_id))

any-anywhere :
    (org_id driver id : String) (t : Trip)
    → matches (active_of org_id driver (some id)) t ≡ true
    → matches (active_of org_id driver none) t ≡ true
unfolding matches
any-anywhere org_id driver id t h = ground arith

-- Where `driverHasActiveTrip` says no, no row but the trip's own is held by the driver.
pub not_busy_free :
    {c : TripsClient} (lawful : IsLawful c) (d : Tables) (org_id driver id : String)
    → driver ≢ ""
    → driver_has_active_trip c d org_id (some driver) (some id) ≡ false
    → any (matches (active_of org_id driver (some id))) d.trips ≡ false
unfolding driver_has_active_trip
not_busy_free {c} lawful d org_id driver id real h = elim (Bool-cases (id == "")) [
  | inl nameless ↦
      any_mono (matches (active_of org_id driver (some id)))
        (matches (active_of org_id driver none)) d.trips (any-anywhere org_id driver id)
        (lawful.find_trip_none (active_of org_id driver none) d (ground (arith, eq_iff driver "")))
  | inr named ↦
      lawful.find_trip_none (active_of org_id driver (some id)) d (ground (arith, eq_iff driver ""))
]

held_driver : (o : Option String) (k : String) → same o (some k) ≡ true → o ≡ some k
held_driver none k h = cc
held_driver (some j) k h = ground (arith, eq_iff j k)

-- A row that a driver is held by names its organisation and the driver.
pub held_by :
    (org_id driver : String) (t : Trip)
    → matches (active_of org_id driver none) t ≡ true
    → (t.org_id ≡ org_id) × (t.driver_id ≡ some driver) × (is_active_assignment t.status ≡ true)
unfolding matches is_active_assignment
held_by org_id driver t h = ground (arith, eq_iff t.org_id org_id, held_driver t.driver_id driver)
