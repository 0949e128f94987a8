-- ===== src/Trip/Lifecycle.antt =====
-- What holds of the lifecycle's tables (apps/api/src/trip-status.js).
use roadwisefleet.Prelude.{◌≡◌, refl, ◌⊎◌, true, false, none, some, arith}
use roadwisefleet.Trip.Status.{
  TripStatus, draft, name, narrow, ◌===◌, includes, may_move, can_transition, has_no_exit,
  terminal_statuses,
}
use roadwisefleet.Trip.Disruption.{
  is_disruption, resume_status, disruption_sources, requires_carrier_actor,
  driver_reportable_endings,
}

-- A status is found under its own name.
pub narrow-name : (s : TripStatus) → narrow (name s) ≡ some s
unfolding narrow name
narrow-name draft = refl
narrow-name _ = refl

pub status_eq : (a b : TripStatus) → (a === b) ≡ true → a ≡ b
unfolding ◌===◌
status_eq a b h = ground arith

pub status_refl : (a : TripStatus) → (a === a) ≡ true
unfolding ◌===◌
status_refl draft = refl
status_refl _ = refl

-- The strings that `canTransition` accepts are the edges of the table.
pub can_transition-name : (a b : TripStatus) → can_transition (name a) (name b) ≡ may_move a b
unfolding can_transition
can_transition-name a b = rw (narrow-name a, narrow-name b, can_transition)

-- A status has no way out exactly if it is one of `TERMINAL_STATUSES`.
pub has_no_exit-terminal : (s : TripStatus) → has_no_exit s ≡ includes terminal_statuses s
unfolding has_no_exit includes
has_no_exit-terminal draft = refl
has_no_exit-terminal _ = refl

-- The edges into an ending start exactly at its documented sources.
pub ending_edges :
    (from to : TripStatus)
    → is_disruption to ≡ true
    → may_move from to ≡ includes (disruption_sources to) from
unfolding is_disruption may_move disruption_sources includes
ending_edges from to h = ground arith

-- An ending has exactly one way out, its documented recovery.
pub recovery_edges :
    (from to : TripStatus)
    → is_disruption from ≡ true
    → may_move from to ≡ (elim (resume_status from) [ none ↦ false | some r ↦ r === to ])
unfolding is_disruption may_move resume_status includes
recovery_edges from to h = ground arith

-- Of the legal moves, an employed driver is left those that leave no ending, and enter none but
-- the reportable ones.
pub driver_moves :
    (from to : TripStatus)
    → may_move from to ≡ true
    → requires_carrier_actor from to ≡ false
    → (is_disruption from ≡ false)
      × ((is_disruption to ≡ false) ⊎ (includes driver_reportable_endings to ≡ true))
unfolding requires_carrier_actor
driver_moves from to m h = ground arith
