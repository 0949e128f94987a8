-- ===== src/Trip/Status.antt =====
-- The trip lifecycle: apps/api/src/trip-status.js.
-- The source keeps a status as a string; `TripStatus` has one constructor for each documented one,
-- `narrow` is `isTripStatus` with the status it finds, and the functions take the source's strings.
use roadwisefleet.Prelude.{
  ℕ, String, Bool, true, false, ◌&&◌, ◌||◌, Option, none, some, List, [], ◌∷◌, ◌==◌, leb,
  if◌then◌else◌, is_some,
}

pub data TripStatus : Type 0 where
  draft assigned en_route at_pickup loaded in_transit at_delivery delivered : TripStatus
  pod_uploaded invoiced settled refused breakdown delayed customs_hold cancelled : TripStatus

pub TripStatus-discrete : Discrete TripStatus
TripStatus-discrete = hlevel

-- `TRIP_STATUSES`, in its order.
abbrev pub trip_statuses : List TripStatus
trip_statuses =
    draft ∷ assigned ∷ en_route ∷ at_pickup ∷ loaded ∷ in_transit ∷ at_delivery ∷ delivered
    ∷ pod_uploaded ∷ invoiced ∷ settled ∷ refused ∷ breakdown ∷ delayed ∷ customs_hold ∷ cancelled
    ∷ []

-- The string that the source and the database write for a status.
unfoldable pub name : TripStatus → String
name draft = "DRAFT"
name assigned = "ASSIGNED"
name en_route = "EN_ROUTE"
name at_pickup = "AT_PICKUP"
name loaded = "LOADED"
name in_transit = "IN_TRANSIT"
name at_delivery = "AT_DELIVERY"
name delivered = "DELIVERED"
name pod_uploaded = "POD_UPLOADED"
name invoiced = "INVOICED"
name settled = "SETTLED"
name refused = "REFUSED"
name breakdown = "BREAKDOWN"
name delayed = "DELAYED"
name customs_hold = "CUSTOMS_HOLD"
name cancelled = "CANCELLED"

-- The place of a status in `TRIP_STATUSES`.
unfoldable pub place : TripStatus → ℕ
place draft = 0
place assigned = 1
place en_route = 2
place at_pickup = 3
place loaded = 4
place in_transit = 5
place at_delivery = 6
place delivered = 7
place pod_uploaded = 8
place invoiced = 9
place settled = 10
place refused = 11
place breakdown = 12
place delayed = 13
place customs_hold = 14
place cancelled = 15

-- `a === b` on statuses.
infix 50 ◌===◌
unfoldable pub ◌===◌ : TripStatus → TripStatus → Bool
unfolding place
a === b = leb (place a) (place b) && leb (place b) (place a)

-- `list.includes(status)`
unfoldable pub includes : List TripStatus → TripStatus → Bool
unfolding ◌===◌
includes [] s = false
includes (t ∷ ts) s = t === s || includes ts s

pub find_named : String → List TripStatus → Option TripStatus
find_named s [] = none
find_named s (t ∷ ts) = if name t == s then some t else find_named s ts

-- `isTripStatus(status)`: the status that the string names.
unfoldable pub narrow : String → Option TripStatus
unfolding find_named name
narrow s = find_named s trip_statuses

abbrev pub is_trip_status : String → Bool
is_trip_status s = is_some (narrow s)

-- `TRANSITIONS`
unfoldable pub transitions : TripStatus → List TripStatus
transitions draft = assigned ∷ cancelled ∷ []
transitions assigned = en_route ∷ loaded ∷ cancelled ∷ []
transitions en_route = at_pickup ∷ breakdown ∷ []
transitions at_pickup = loaded ∷ refused ∷ []
transitions loaded = in_transit ∷ []
transitions in_transit = at_delivery ∷ delivered ∷ delayed ∷ []
transitions at_delivery = delivered ∷ customs_hold ∷ []
transitions delivered = pod_uploaded ∷ []
transitions pod_uploaded = invoiced ∷ []
transitions invoiced = settled ∷ []
transitions settled = []
transitions refused = loaded ∷ []
transitions breakdown = en_route ∷ []
transitions delayed = in_transit ∷ []
transitions customs_hold = at_delivery ∷ []
transitions cancelled = []

-- `nextStatuses(from)`: empty for a string that names no status.
unfoldable pub next_statuses : String → List TripStatus
unfolding narrow transitions
next_statuses from = elim (narrow from) [ none ↦ [] | some s ↦ transitions s ]

-- `TRANSITIONS[from].includes(to)`, on statuses.
unfoldable pub may_move : TripStatus → TripStatus → Bool
unfolding transitions includes
may_move from to = includes (transitions from) to

-- `canTransition(from, to)`: false where either string names no status.
unfoldable pub can_transition : String → String → Bool
unfolding narrow may_move
can_transition from to = elim (narrow from) [
  | none ↦ false
  | some s ↦ elim (narrow to) [ none ↦ false | some t ↦ may_move s t ]
]

-- `isTerminal(status)`: no outgoing transition.
unfoldable pub has_no_exit : TripStatus → Bool
unfolding transitions
has_no_exit s = elim (transitions s) [ [] ↦ true | _ ∷ _ ↦ false ]

unfoldable pub is_terminal : String → Bool
unfolding narrow has_no_exit
is_terminal s = elim (narrow s) [ none ↦ false | some t ↦ has_no_exit t ]

-- `TERMINAL_STATUSES`
abbrev pub terminal_statuses : List TripStatus
terminal_statuses = settled ∷ cancelled ∷ []

-- `START_TRIP_STATUS`
abbrev pub start_trip_status : TripStatus
start_trip_status = en_route

-- `ACTIVE_ASSIGNMENT_STATUSES`
abbrev pub active_assignment_statuses : List TripStatus
active_assignment_statuses =
    assigned ∷ en_route ∷ at_pickup ∷ loaded ∷ in_transit ∷ at_delivery ∷ refused ∷ breakdown
    ∷ delayed ∷ customs_hold ∷ []

-- `isActiveAssignment(status)`
unfoldable pub is_active_assignment : TripStatus → Bool
unfolding includes
is_active_assignment = includes active_assignment_statuses
