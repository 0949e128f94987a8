-- ===== src/Auth/Visibility.antt =====
-- apps/api/src/trip-visibility.js
use roadwisefleet.Prelude.{String, Bool, true, false, not, ◌&&◌, Option, none, if◌then◌else◌, same}
use roadwisefleet.Auth.Permissions.{Granted, has_permission, usable}

-- `isOrgWideTripReader(granted)`
unfoldable pub is_org_wide_trip_reader : Granted → Bool
unfolding has_permission
is_org_wide_trip_reader granted = has_permission granted "trip:*"

-- `canReadTrip({ granted, userId, tripDriverId })`
unfoldable pub can_read_trip : Granted → Option String → Option String → Bool
unfolding is_org_wide_trip_reader
can_read_trip granted user_id trip_driver_id =
    if is_org_wide_trip_reader granted
    then true
    else if not (has_permission granted "trip:read")
    then false
    else usable user_id && same user_id trip_driver_id

pub record ReadScope : Type 0 where
  pub org_wide : Bool
  pub driver_id : Option String

-- `tripReadScope({ granted, userId })`
unfoldable pub trip_read_scope : Granted → Option String → ReadScope
unfolding is_org_wide_trip_reader
trip_read_scope granted user_id =
    if is_org_wide_trip_reader granted
    then record { org_wide = true; driver_id = none }
    else record { org_wide = false; driver_id = if usable user_id then user_id else none }
