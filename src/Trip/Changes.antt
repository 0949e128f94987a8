-- ===== src/Trip/Changes.antt =====
-- What a transition that succeeds writes (`transitionTrip` of apps/api/src/trips-core.js).
use roadwisefleet.Prelude.{
  String, ◌≡◌, refl, ap, ◌∙◌, Bool, true, false, Option, some, List, [], ◌∷◌, ◌++◌, map, ◌==◌,
  if◌then◌else◌,
}
use roadwisefleet.Trip.Status.{TripStatus, ◌===◌, delivered, en_route, narrow}
use roadwisefleet.Trip.Tables.{Instant, Trip, Tables, Actor, actor_user, Reply, ok}
use roadwisefleet.Trip.Client.{TripsClient, IsLawful, updated, update_row}
use roadwisefleet.Trip.Requests.{by_id, Move, update_data, commit_transition, transition_trip}
use roadwisefleet.Trip.Effects.{transition_ok}

-- The instants and the tracking of a row after a move to a status, by its name.
abbrev pub delivered_after : TripStatus → Instant → Option Instant → Option Instant
delivered_after delivered now old = some now
delivered_after _ now old = old

abbrev pub tracking_after : TripStatus → Bool → Bool
tracking_after delivered old = false
tracking_after en_route old = true
tracking_after _ old = old

abbrev pub started_after : TripStatus → Instant → Option Instant → Option Instant
started_after en_route now old = some now
started_after _ now old = old

-- A row after the move of a trip: each column, the row of another key as it was.
abbrev pub moved_row : String → TripStatus → Instant → Trip → Trip
moved_row trip_id target now t =
    if t.id == trip_id
    then record {
      id = t.id;
      org_id = t.org_id;
      order_id = t.order_id;
      driver_id = t.driver_id;
      truck_id = t.truck_id;
      rate_eur = t.rate_eur;
      status = target;
      delivered_at = delivered_after target now t.delivered_at;
      tracking = tracking_after target t.tracking;
      tracking_started_at = started_after target now t.tracking_started_at;
    }
    else t

update_row-moved :
    (trip_id : String) (target : TripStatus) (now : Instant) (t : Trip)
    → update_row trip_id (update_data target now) t ≡ moved_row trip_id target now t
unfolding updated update_data ◌===◌
update_row-moved trip_id TripStatus.delivered now t = refl
update_row-moved trip_id TripStatus.en_route now t = refl
update_row-moved trip_id _ now t = refl

map-moved :
    (trip_id : String) (target : TripStatus) (now : Instant) (ts : List Trip)
    → map (update_row trip_id (update_data target now)) ts ≡ map (moved_row trip_id target now) ts
map-moved trip_id target now [] = refl
map-moved trip_id target now (t ∷ ts) =
    rw (update_row-moved trip_id target now t, map-moved trip_id target now ts)

module _ (c : TripsClient) (lawful : IsLawful c) (d : Tables) (trip_id : String) (m : Move)
    (actor : Option Actor) (now : Instant) where
  -- The tables after the transaction.
  abbrev pub moved : Tables
  moved = record d {
    trips = map (moved_row trip_id m.target now) d.trips;
    events =
        d.events
        ++ record {
          trip_id = trip_id;
          from_status = m.trip.status;
          to_status = m.target;
          actor_id = actor_user actor;
        }
          ∷ [];
  }

  commit-moved : (commit_transition c d trip_id m actor now).1 ≡ moved
  unfolding commit_transition
  commit-moved =
      rw (lawful.create_event_tables, lawful.update_trip_tables, map-moved trip_id m.target now)

-- A transition that succeeds changes nothing but the rows of the trip's key and the events: such a
-- row gets the status that was asked for; a delivery is dated by now and ends the tracking, and the
-- departure starts the tracking now; its other columns are kept; and one event of the move by the
-- actor is appended.
pub transition_writes :
    (c : TripsClient)
    → IsLawful c
    → (d : Tables) (org_id trip_id to : String) (actor : Option Actor) (now : Instant) (t : Trip)
    → (transition_trip c d org_id trip_id to actor now).0 ≡ ok t
    → (m : Move) × (c.find_trip (by_id trip_id org_id) d ≡ some m.trip)
      × (narrow to ≡ some m.target)
      × ((transition_trip c d org_id trip_id to actor now).1 ≡ record d {
        trips = map (moved_row trip_id m.target now) d.trips;
        events =
            d.events
            ++ record {
              trip_id = trip_id;
              from_status = m.trip.status;
              to_status = m.target;
              actor_id = actor_user actor;
            }
              ∷ [];
      })
transition_writes c lawful d org_id trip_id to actor now t h =
    let (m, allowed, done) = transition_ok c d org_id trip_id to actor now t h in
    (
      m,
      allowed.is_found,
      allowed.is_target,
      ap (λ (r : Reply Trip × Tables). r.1) done ∙ commit-moved c lawful d trip_id m actor now,
    )
