-- ===== src/Trip/Disruption.antt =====
-- The alternate endings of the lifecycle: the second half of apps/api/src/trip-status.js.
use roadwisefleet.Prelude.{
  String, Bool, false, not, Option, none, some, List, [], ◌∷◌, if◌then◌else◌, filter,
}
use roadwisefleet.Trip.Status.{
  TripStatus, en_route, at_pickup, loaded, in_transit, at_delivery, refused, breakdown, delayed,
  customs_hold, includes, may_move, next_statuses,
}

-- `DISRUPTION_STATUSES`
abbrev pub disruption_statuses : List TripStatus
disruption_statuses = refused ∷ breakdown ∷ delayed ∷ customs_hold ∷ []

-- `DISRUPTION_RESUME`; `none` is a key that the table lacks.
unfoldable pub disruption_resume : TripStatus → Option TripStatus
disruption_resume refused = some loaded
disruption_resume breakdown = some en_route
disruption_resume delayed = some in_transit
disruption_resume customs_hold = some at_delivery
disruption_resume _ = none

-- `DISRUPTION_SOURCES`
unfoldable pub disruption_sources : TripStatus → List TripStatus
disruption_sources refused = at_pickup ∷ []
disruption_sources breakdown = en_route ∷ []
disruption_sources delayed = in_transit ∷ []
disruption_sources customs_hold = at_delivery ∷ []
disruption_sources _ = []

-- `DRIVER_REPORTABLE_ENDINGS`
abbrev pub driver_reportable_endings : List TripStatus
driver_reportable_endings = refused ∷ breakdown ∷ []

-- `isDisruption(status)`
unfoldable pub is_disruption : TripStatus → Bool
unfolding includes
is_disruption = includes disruption_statuses

-- `resumeStatus(status)`
unfoldable pub resume_status : TripStatus → Option TripStatus
unfolding is_disruption disruption_resume
resume_status s = if is_disruption s then disruption_resume s else none

-- `endingsFrom(from)`
unfoldable pub endings_from : String → List TripStatus
unfolding next_statuses filter is_disruption
endings_from from = filter is_disruption (next_statuses from)

-- `recoveryFor(status)`: the pair of `from` and `to`.
unfoldable pub recovery_for : TripStatus → Option (TripStatus × TripStatus)
unfolding resume_status
recovery_for s = elim (resume_status s) [ none ↦ none | some to ↦ some (s, to) ]

-- `requiresCarrierActor(from, to)`, on statuses.
unfoldable pub requires_carrier_actor : TripStatus → TripStatus → Bool
unfolding may_move is_disruption includes
requires_carrier_actor from to =
    if not (may_move from to)
    then false
    else if is_disruption to
    then not (includes driver_reportable_endings to)
    else is_disruption from
