-- ===== src/Share/Tracked.antt =====
-- What an opened tracking link shows: `shapeTrackedTrip` and `loadTrackedTrip` of
-- apps/api/src/track-link.js. The database client is a parameter.
use roadwisefleet.Prelude.{
  ℕ, String, Bool, not, Option, none, some, List, [], ◌∷◌, eqb, if◌then◌else◌,
}
use roadwisefleet.Prelude.Text.{trim}
use roadwisefleet.Js.{Number, is_finite}
use roadwisefleet.Share.Cuts.{is_empty}
use roadwisefleet.Share.Windows.{Window}

pub record Route : Type 0 where
  pub origin : Option String
  pub destination : Option String
  pub cargo : Option String

pub record Change : Type 0 where
  pub from_status : Option String
  pub to_status : String
  pub happened_at : ℕ

pub record Position : Type 0 where
  pub at : ℕ
  pub lat : Number
  pub lng : Number

-- A trip with the relations of `trackTripInclude`: the changes of its status in their order, and
-- the newest position at most.
pub record TrackedRow : Type 0 where
  pub window : Window
  pub status : String
  pub tracking : Bool
  pub order : Option Route
  pub status_events : List Change
  pub gps_pings : List Position

-- `toNumber(value)` of a decimal column
abbrev pub finite_number : Number → Option Number
finite_number n = if is_finite n then some n else none

pub record LastPosition : Type 0 where
  pub at : ℕ
  pub lat : Option Number
  pub lng : Option Number

-- The public payload; it has no arrival time yet.
pub record PublicTrip : Type 0 where
  pub status : String
  pub tracking : Bool
  pub route : Option Route
  pub status_timeline : List Change
  pub last_known_position : Option LastPosition
  pub pod_available : Bool

abbrev pub last_position : List Position → Option LastPosition
last_position [] = none
last_position (p ∷ ps) =
    some (record { at = p.at; lat = finite_number p.lat; lng = finite_number p.lng })

-- `shapeTrackedTrip(trip, { podAvailable })`
unfoldable pub shape_tracked_trip : TrackedRow → Bool → PublicTrip
shape_tracked_trip t pod = record {
  status = t.status;
  tracking = t.tracking;
  route = t.order;
  status_timeline = t.status_events;
  last_known_position = last_position t.gps_pings;
  pod_available = pod;
}

-- What the routes of links write to a trip.
pub data WindowUpdate : Type 0 where
  set_window : ℕ → ℕ → WindowUpdate
  revoke_window : WindowUpdate

-- The calls of the database client on its state: a trip by its id, and by id and organisation, the
-- update by id, and what `hasPodDocument` answers.
pub record LinksClient {ℓ} (S : Type ℓ) : Type ℓ where
  pub find_trip : String → S → Option TrackedRow
  pub find_own_trip : String → String → S → Option TrackedRow
  pub update_trip : String → WindowUpdate → S → S
  pub has_pod : String → S → Bool

module _ {ℓ} {S : Type ℓ} (c : LinksClient S) where
  -- `loadTrackedTrip(prisma, { tripId, version })`; every refusal is `not_found`.
  unfoldable pub load_tracked_trip : String → Option ℕ → S → Option PublicTrip
  load_tracked_trip trip_id version s =
      if is_empty (trim trip_id) then none else elim (c.find_trip (trim trip_id) s) [
        | none ↦ none
        | some t ↦ elim version [
          | none ↦ some (shape_tracked_trip t (c.has_pod (trim trip_id) s))
          | some v ↦
              if not (eqb t.window.track_link_version v)
              then none
              else some (shape_tracked_trip t (c.has_pod (trim trip_id) s))
        ]
      ]
