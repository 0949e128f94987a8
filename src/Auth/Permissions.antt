-- ===== src/Auth/Permissions.antt =====
-- apps/api/src/auth/permissions.js
use Prim.Native.String
use roadwisefleet.Prelude.{
  String, Bool, true, false, not, ◌&&◌, ◌||◌, Option, none, some, List, [], ◌==◌, if◌then◌else◌,
  any, same,
}
use roadwisefleet.Prelude.Text.{before_colon}

abbrev pub Granted : Type 0
Granted = Option (List String)

-- The test of `granted.some(...)` in `hasPermission`.
unfoldable pub grants : String → String → Bool
unfolding before_colon
grants required p = p == required || p == String.◌++◌ (before_colon required) ":*" || p == "*"

-- `hasPermission(granted, required)`
unfoldable pub has_permission : Granted → String → Bool
unfolding grants any
has_permission none required = false
has_permission (some ps) required = if required == "" then false else any (grants required) ps

-- `canCreateTrip(granted)`
unfoldable pub can_create_trip : Granted → Bool
unfolding has_permission
can_create_trip granted = has_permission granted "trip:create"

-- A user id that is a string with something in it.
abbrev pub usable : Option String → Bool
usable none = false
usable (some u) = not (u == "")

-- `canTransitionTrip({ granted, userId, tripDriverId })`
unfoldable pub can_transition_trip : Granted → Option String → Option String → Bool
unfolding has_permission
can_transition_trip granted user_id trip_driver_id =
    if has_permission granted "trip:*"
    then true
    else if not (has_permission granted "trip:status")
    then false
    else usable user_id && same user_id trip_driver_id

-- `loadRolePermissions(prisma, roleId)`, with the lookup of a role's permissions as an argument.
unfoldable pub load_role_permissions : (String → Granted) → Option String → List String
load_role_permissions find_role none = []
load_role_permissions find_role (some role_id) =
    if role_id == "" then [] else elim (find_role role_id) [ none ↦ [] | some ps ↦ ps ]
