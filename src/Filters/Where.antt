-- ===== src/Filters/Where.antt =====
-- The condition on the trips that a list is read with: `buildTripWhere` of
-- apps/api/src/trip-filters.js. A part is `none` where the clause has no such key.
use roadwisefleet.Prelude.{ℕ, String, Option, none, some, List, ◌||◌, is_some, if◌then◌else◌}
use roadwisefleet.Trip.Status.{TripStatus}
use roadwisefleet.Filters.Query.{TripFilters, nonempty}

-- `{ gte, lte }`
pub record Range : Type 0 where
  pub gte : Option ℕ
  pub lte : Option ℕ

-- The columns that `contains` is asked of, one after another.
pub data Column : Type 0 where
  order_origin order_destination order_cargo customer_name driver_name : Column

pub record Where : Type 0 where
  pub org_id : String
  pub status_in : Option (List TripStatus)
  pub driver_id : Option String
  pub created_at : Option Range
  pub any_contains : Option (List (Column × String))

unfoldable pub status_in : List TripStatus → Option (List TripStatus)
status_in List.[] = none
status_in (List.◌∷◌ s ss) = some (List.◌∷◌ s ss)

unfoldable pub created_range : Option ℕ → Option ℕ → Option Range
created_range from to =
    if is_some from || is_some to then some (record { gte = from; lte = to }) else none

unfoldable pub contains_any : String → List (Column × String)
contains_any s =
    List.◌∷◌ (order_origin, s)
      (List.◌∷◌ (order_destination, s)
        (List.◌∷◌ (order_cargo, s)
          (List.◌∷◌ (customer_name, s) (List.◌∷◌ (driver_name, s) List.[]))))

unfoldable pub search : Option String → Option (List (Column × String))
search none = none
search (some s) = some (contains_any s)

-- `buildTripWhere({ orgId, filters })`
unfoldable pub build_trip_where : String → Option TripFilters → Where
build_trip_where org_id none = record {
  org_id = org_id;
  status_in = none;
  driver_id = none;
  created_at = none;
  any_contains = none;
}
build_trip_where org_id (some f) = record {
  org_id = org_id;
  status_in = status_in f.statuses;
  driver_id = nonempty f.driver_id;
  created_at = created_range f.from_date f.to_date;
  any_contains = search (nonempty f.q);
}
