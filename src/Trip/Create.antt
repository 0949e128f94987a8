-- ===== src/Trip/Create.antt =====
-- Creating a trip: `parsePlannedAt`, `normalizeCreateTripInput` and `createTrip` of
-- apps/api/src/trips-core.js.
use roadwisefleet.Prelude.{String, not, Option, none, some, is_some, if◌then◌else◌}
use roadwisefleet.Prelude.Text.{trim}
use roadwisefleet.Js.{Number, plus, Value, text, Fields, Runtime, is_nullish, is_absent, to_text}
use roadwisefleet.Auth.Permissions.{can_create_trip}
use roadwisefleet.Trip.Status.{draft}
use roadwisefleet.Trip.Tables.{
  Instant, Trip, Tables, TripData, Actor, actor_permissions, truthy, Reply, ok, refuse, forbidden,
  invalid_input, order_not_found, driver_not_found, truck_not_found, ◌>>=◌, ◌>>◌, refuse_if, found,
}
use roadwisefleet.Trip.Client.{TripsClient}

-- `typeof v === 'string' ? v.trim() : ''`
unfoldable pub trimmed : Value → String
unfolding trim
trimmed (text s) = trim s
trimmed _ = ""

-- A date that is checked: `refuse` where the value is there and is no date.
unfoldable pub parse_planned_at : Runtime → Value → Reply (Option Instant)
parse_planned_at r v = if is_absent v then ok none else elim (r.date_of v) [
  | none ↦ refuse (invalid_input "plannedAt must be a valid ISO-8601 date")
  | some at ↦ ok (some at)
]

-- `rateEur` of the body: absent, or a finite number that is not negative.
unfoldable pub parse_rate : Runtime → Value → Reply (Option Number)
parse_rate r v = if is_absent v then ok none else elim (r.to_number v) [
  | plus n ↦ ok (some (plus n))
  | _ ↦ refuse (invalid_input "rateEur must be a non-negative number")
]

-- `b.key === undefined || b.key === null ? null : String(b.key)`
unfoldable pub optional_id : Runtime → Value → Option String
optional_id r v = if is_nullish v then none else some (to_text r v)

pub record CreateInput : Type 0 where
  pub order_id : String
  pub driver_id : Option String
  pub truck_id : Option String
  pub rate_eur : Option Number
  pub planned_at : Option Instant

-- `normalizeCreateTripInput(body)`; a body that is null or no object is `none`.
unfoldable pub normalize_create_trip_input : Runtime → Option Fields → Reply CreateInput
unfolding trimmed parse_rate parse_planned_at optional_id
normalize_create_trip_input r body = do
  b ← found body (invalid_input "body must be an object")
  order_id ← found (truthy (some (trimmed (b "orderId")))) (invalid_input "orderId is required")
  rate_eur ← parse_rate r (b "rateEur")
  planned_at ← parse_planned_at r (b "plannedAt")
  ok (record {
    order_id = order_id;
    driver_id = optional_id r (b "driverId");
    truck_id = optional_id r (b "truckId");
    rate_eur = rate_eur;
    planned_at = planned_at;
  })

-- `if (id) { row = find(id); if (!row) refuse }`
abbrev pub check_optional {ℓ} :
    {A : Type ℓ}
    → Option String
    → (String → Option A)
    → (Option A → Reply (Unit {0}))
    → Reply (Unit {0})
check_optional id query check = elim (truthy id) [ none ↦ ok tt | some k ↦ check (query k) ]

-- The `data` of a new trip.
abbrev pub draft_data : String → CreateInput → TripData
draft_data org_id input = record {
  org_id = org_id;
  order_id = input.order_id;
  driver_id = input.driver_id;
  truck_id = input.truck_id;
  rate_eur = input.rate_eur;
  status = draft;
}

module _ (c : TripsClient) where
  -- `createTrip`, up to its writes.
  unfoldable pub check_create :
      Tables → Runtime → String → Option Fields → Option Actor → Reply CreateInput
  unfolding normalize_create_trip_input
  check_create d r org_id body actor = do
    refuse_if (not (is_some actor)) forbidden
    refuse_if (not (can_create_trip (actor_permissions actor))) forbidden
    input ← normalize_create_trip_input r body
    refuse_if (not (is_some (c.find_order input.order_id org_id d))) order_not_found
    check_optional input.driver_id (λ k. c.find_user k org_id d)
        (λ row. refuse_if (not (is_some row)) driver_not_found)
    check_optional input.truck_id (λ k. c.find_truck k org_id d)
        (λ row. refuse_if (not (is_some row)) truck_not_found)
    ok input

  -- The writes of `createTrip`: with a plan, the order and the trip in one transaction.
  unfoldable pub commit_create : Tables → String → CreateInput → Trip × Tables
  commit_create d org_id input = elim input.planned_at [
    | none ↦ c.create_trip (draft_data org_id input) d
    | some at ↦ c.create_trip (draft_data org_id input) (c.update_order input.order_id at d)
  ]

  -- `createTrip`
  unfoldable pub create_trip :
      Tables → Runtime → String → Option Fields → Option Actor → Reply Trip × Tables
  create_trip d r org_id body actor = elim (check_create d r org_id body actor) [
    | refuse e ↦ (refuse e, d)
    | ok input ↦ let (trip, d') = commit_create d org_id input in (ok trip, d')
  ]
