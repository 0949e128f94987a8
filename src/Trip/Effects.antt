-- ===== src/Trip/Effects.antt =====
-- What the requests of apps/api/src/trips-core.js and trip-assignment.js change, and what not.
use roadwisefleet.Prelude.{
  ℕ, zero, suc, ltb, String, ◌≡◌, refl, ap, ◌⊎◌, ◌↔◌, true, false, Option, some, any, arith,
  Option-cases, inl, inr, same,
}
use roadwisefleet.Auth.Permissions.{has_permission, can_transition_trip}
use roadwisefleet.Trip.Status.{assigned, en_route, pod_uploaded, narrow, name, includes}
use roadwisefleet.Trip.Lifecycle.{status_eq, narrow-name, driver_moves}
use roadwisefleet.Trip.Disruption.{is_disruption, driver_reportable_endings}
use roadwisefleet.Trip.Tables.{
  Instant, Trip, Tables, Actor, actor_user, actor_permissions, Reply, Reply-cases, ok,
}
use roadwisefleet.Trip.Client.{TripsClient, IsLawful, document_matches}
use roadwisefleet.Trip.Requests.{
  by_id, Move, pod_doc_types, pod_statuses, has_pod_document, check_transition, commit_transition,
  transition_trip, check_start, start_trip,
}
use roadwisefleet.Trip.Sound.Allowed.{
  IsAllowed, check_transition-IsAllowed, IsAllowed-check_transition,
}

module _ (c : TripsClient) (d : Tables) (org_id trip_id to : String) (actor : Option Actor)
    (now : Instant) where
  -- A transition that succeeds was allowed, and its transaction was committed.
  pub transition_ok :
      (t : Trip)
      → (transition_trip c d org_id trip_id to actor now).0 ≡ ok t
      → (m : Move) × IsAllowed c d org_id trip_id to actor m
        × ((transition_trip c d org_id trip_id to actor now)
            ≡ (ok t, (commit_transition c d trip_id m actor now).1))
  unfolding transition_trip
  transition_ok t h = elim (Reply-cases (check_transition c d org_id trip_id to actor)) [
    | inl (e, refused) ↦ absurd (ground arith)
    | inr (m, checked) ↦
        (m, check_transition-IsAllowed c d org_id trip_id to actor m checked, ground arith)
  ]

  pub allowed_ok :
      (m : Move)
      → IsAllowed c d org_id trip_id to actor m
      → transition_trip c d org_id trip_id to actor now ≡ (
        ok (commit_transition c d trip_id m actor now).0,
        (commit_transition c d trip_id m actor now).1,
      )
  unfolding transition_trip
  allowed_ok m h = ground (arith, IsAllowed-check_transition c d org_id trip_id to actor m h)

  -- A transition succeeds exactly if the organisation has the trip, the actor may act on it, the
  -- status is known and a legal move, an ending that wants the carrier is asked for by it, a
  -- POD_UPLOADED has its document, and the driver is not busy.
  pub transition_ok_iff :
      ((t : Trip) × ((transition_trip c d org_id trip_id to actor now).0 ≡ ok t))
      ↔ ((m : Move) × IsAllowed c d org_id trip_id to actor m)
  transition_ok_iff = (
    (λ h. let (m, allowed, _) = transition_ok h.0 h.1 in (m, allowed)),
    (λ h. (
      (commit_transition c d trip_id h.0 actor now).0,
      ap (λ (r : Reply Trip × Tables). r.0) (allowed_ok h.0 h.1),
    )),
  )

positive : (n : ℕ) → ltb 0 n ≡ true → (m : ℕ) × (n ≡ suc m)
positive zero h = absurd (ground arith)
positive (suc m) h = (m, refl)

-- Where the count is positive there is such a document.
pod_document :
    (c : TripsClient)
    → IsLawful c
    → (d : Tables) (trip_id : String) → has_pod_document c d trip_id ≡ true
    → any (document_matches trip_id pod_doc_types pod_statuses) d.documents ≡ true
unfolding has_pod_document
pod_document c lawful d trip_id h =
    let (n, e) = positive (c.count_documents trip_id pod_doc_types pod_statuses d) h in
    lawful.count_documents_pos trip_id pod_doc_types pod_statuses d n e

-- A trip is moved to POD_UPLOADED only if the documents hold an uploaded or verified pod or ecmr
-- of that trip.
pub pod_gate :
    (c : TripsClient)
    → IsLawful c
    → (d : Tables) (org_id trip_id : String) (actor : Option Actor) (now : Instant) (t : Trip)
    → (transition_trip c d org_id trip_id (name pod_uploaded) actor now).0 ≡ ok t
    → any (document_matches trip_id pod_doc_types pod_statuses) d.documents ≡ true
pod_gate c lawful d org_id trip_id actor now t h =
    let (m, allowed, _) = transition_ok c d org_id trip_id (name pod_uploaded) actor now t h in
    pod_document c lawful d trip_id
      (allowed.has_pod (ground (arith, allowed.is_target, narrow-name pod_uploaded)))

-- A transition that succeeds for an actor without the carrier's capability was of a trip of that
-- driver; the trip was in no ending, and entered none but those that a driver may report.
pub driver_never_resumes :
    (c : TripsClient) (d : Tables) (org_id trip_id to : String) (actor : Option Actor)
    (now : Instant) (t : Trip)
    → has_permission (actor_permissions actor) "trip:*" ≡ false
    → (transition_trip c d org_id trip_id to actor now).0 ≡ ok t
    → (m : Move) × (c.find_trip (by_id trip_id org_id) d ≡ some m.trip)
      × (narrow to ≡ some m.target)
      × (same (actor_user actor) m.trip.driver_id ≡ true)
      × (is_disruption m.trip.status ≡ false)
      × ((is_disruption m.target ≡ false) ⊎ (includes driver_reportable_endings m.target ≡ true))
unfolding can_transition_trip
driver_never_resumes c d org_id trip_id to actor now t employed h =
    let (m, allowed, _) = transition_ok c d org_id trip_id to actor now t h in
    let moves =
      driver_moves m.trip.status m.target allowed.legal (ground (arith, allowed.by_carrier)) in
    (m, allowed.is_found, allowed.is_target, ground (arith, allowed.authorized), moves.0, moves.1)

-- A start that succeeds was asked for by the trip's own driver while the trip was ASSIGNED, and its
-- reply and its tables are those of the move to EN_ROUTE.
pub start_ok :
    (c : TripsClient) (d : Tables) (org_id trip_id : String) (actor : Option Actor) (now : Instant)
    (t : Trip)
    → (start_trip c d org_id trip_id actor now).0 ≡ ok t
    → (current : Trip) × (c.find_trip (by_id trip_id org_id) d ≡ some current)
      × (current.status ≡ assigned)
      × (same (actor_user actor) current.driver_id ≡ true)
      × (start_trip c d org_id trip_id actor now
          ≡ transition_trip c d org_id trip_id (name en_route) actor now)
unfolding start_trip check_start name
start_ok c d org_id trip_id actor now t h =
    elim (Option-cases (c.find_trip (by_id trip_id org_id) d)) [
      | inl missed ↦ absurd (ground arith)
      | inr (current, hit) ↦ (
        current,
        hit,
        ground (arith, status_eq current.status assigned),
        ground arith,
        ground arith,
      )
    ]
