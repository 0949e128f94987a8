-- ===== src/Trip/Sound.antt =====
-- What holds of the tables between two trip requests.
pub mod Update
pub mod Allowed
pub mod Transition
pub mod Assign
pub mod Lookup
pub mod Create
pub mod Ingest
use roadwisefleet.Prelude.{
  ℕ, ◌≤◌, ◌<◌, String, ◌≡◌, ◌≢◌, Bool, true, false, not, ◌&&◌, ◌||◌, Option, none, some, List, [],
  ◌∷◌, ◌==◌, All, any, if◌then◌else◌, is_some,
}
use roadwisefleet.Trip.Status.{TripStatus, draft, may_move, ◌===◌}
use roadwisefleet.Trip.Walk.{phase}
use roadwisefleet.Trip.Tables.{Trip, StatusEvent, Tables}
use roadwisefleet.Trip.Client.{matches}
use roadwisefleet.Trip.Requests.{active_of}
use roadwisefleet.Trip.Rows.{Unique, count}

-- The trips of an organisation that hold a driver.
unfoldable pub assignments : String → String → List Trip → ℕ
assignments org_id driver ts = count (matches (active_of org_id driver none)) ts

-- What an event may record: a move of the table, or a change of driver in the same status.
unfoldable pub records_move : StatusEvent → Bool
records_move e = may_move e.from_status e.to_status || e.from_status === e.to_status

-- The status that a trip's events lead to, from `s`; `none` if one of them does not fit.
unfoldable pub follow : String → TripStatus → List StatusEvent → Option TripStatus
follow id s [] = some s
follow id s (e ∷ es) =
    if e.trip_id == id
    then elim (records_move e && e.from_status === s) [
      | true ↦ follow id e.to_status es
      | false ↦ none
    ]
    else follow id s es

-- Tracking is on only between EN_ROUTE and the delivery, and has a start instant; a trip has a
-- delivery instant from DELIVERED on.
pub record RowIsSound (t : Trip) : Type 0 where
  pub tracked_late : t.tracking ≡ true → 2 ≤ phase t.status
  pub tracked_early : t.tracking ≡ true → phase t.status < 7
  pub tracked_since : t.tracking ≡ true → is_some t.tracking_started_at ≡ true
  pub delivered : 7 ≤ phase t.status → phase t.status < 11 → is_some t.delivered_at ≡ true

pub record IsSound (d : Tables) : Type 0 where
  pub unique : Unique d.trips
  pub single : (org_id driver : String) → driver ≢ "" → assignments org_id driver d.trips ≤ 1
  pub rows : All RowIsSound d.trips
  pub timeline : All (λ t. follow t.id draft d.events ≡ some t.status) d.trips
