-- ===== src/Trip/Walk.antt =====
-- Walks through the lifecycle of apps/api/src/trip-status.js: what a trip passes, in which order.
use mathlib.Core.List.{Memᴰ}
use mathlib.Core.Path.{subst}
use roadwisefleet.Prelude.{
  ℕ, suc, ◌+◌, ◌≤◌, ◌≡◌, refl, ◌≢◌, ◌⊎◌, true, false, List, [], ◌∷◌, arith, sym, inl, inr,
  if◌then◌else◌,
}
use roadwisefleet.Trip.Status.{
  TripStatus, draft, assigned, en_route, at_pickup, loaded, in_transit, at_delivery, delivered,
  pod_uploaded, invoiced, settled, refused, breakdown, delayed, customs_hold, cancelled, may_move,
  is_active_assignment,
}
use roadwisefleet.Trip.Disruption.{is_disruption}

-- Moves that the table has, one after another.
pub data Walk : TripStatus → TripStatus → Type 0 where
  stop : {s : TripStatus} → Walk s s
  move : {s t u : TripStatus} → may_move s t ≡ true → Walk t u → Walk s u

-- The statuses that a walk enters.
abbrev pub entered : {s u : TripStatus} → Walk s u → List TripStatus
entered stop = []
entered (move {t = t} m w) = t ∷ entered w

-- The moves of a walk that neither enter nor leave an ending.
abbrev pub plain_moves : {s u : TripStatus} → Walk s u → ℕ
plain_moves stop = 0
plain_moves (move {s = s} {t = t} m w) =
    let rest = plain_moves w in
    if is_disruption s then rest else if is_disruption t then rest else suc rest

-- How far a trip has come; an ending stands where the trip stands.
abbrev pub phase : TripStatus → ℕ
phase draft = 0
phase assigned = 1
phase en_route = 2
phase breakdown = 2
phase at_pickup = 3
phase refused = 3
phase loaded = 4
phase in_transit = 5
phase delayed = 5
phase at_delivery = 6
phase customs_hold = 6
phase delivered = 7
phase pod_uploaded = 8
phase invoiced = 9
phase settled = 10
phase cancelled = 11

phase-move :
    (s t : TripStatus)
    → may_move s t ≡ true
    → phase s + (if is_disruption s then 0 else if is_disruption t then 0 else 1) ≤ phase t
unfolding may_move is_disruption
phase-move s t m = ground arith

-- A trip never goes back: a walk's plain moves are at most the phases between its ends.
pub phase-walk : {s u : TripStatus} (w : Walk s u) → phase s + plain_moves w ≤ phase u
phase-walk stop = omega arith
phase-walk (move {s = s} {t = t} m w) = ground (arith, phase-move s t m, phase-walk w)

late_inactive : (s : TripStatus) → 7 ≤ phase s → is_active_assignment s ≡ false
unfolding is_active_assignment
late_inactive s h = ground arith

-- A delivered trip never holds its driver again.
pub delivered_is_final : {u : TripStatus} → Walk delivered u → is_active_assignment u ≡ false
delivered_is_final {u} w = late_inactive u (omega (arith, phase-walk w))

started_not_cancelled :
    (s t : TripStatus) → may_move s t ≡ true → 2 ≤ phase s → s ≢ cancelled → t ≢ cancelled
unfolding may_move
started_not_cancelled s t m h n = ground arith

-- A trip that is under way is never cancelled.
pub under_way_not_cancelled :
    {s u : TripStatus} → Walk s u → 2 ≤ phase s → s ≢ cancelled → u ≢ cancelled
under_way_not_cancelled stop h n = n
under_way_not_cancelled (move {s = s} {t = t} m w) h n =
    under_way_not_cancelled w (omega (arith, phase-move s t m)) (started_not_cancelled s t m h n)

skips_no_pod :
    (s t : TripStatus)
    → may_move s t ≡ true
    → phase s ≤ 7
    → (t ≡ cancelled) ⊎ (t ≡ pod_uploaded) ⊎ (phase t ≤ 7)
unfolding may_move
skips_no_pod s t m h = ground arith

cancelled_stays : {u : TripStatus} → Walk cancelled u → u ≡ cancelled
unfolding may_move
cancelled_stays stop = refl
cancelled_stays (move m w) = cc

-- A walk that begins at or before DELIVERED and ends in SETTLED enters POD_UPLOADED.
pub settled_needs_pod :
    {s u : TripStatus} (w : Walk s u) → phase s ≤ 7 → u ≡ settled → Memᴰ pod_uploaded (entered w)
settled_needs_pod stop h e = absurd (ground arith)
settled_needs_pod {u = u} (move {s = s} {t = t} m w) h e = elim (skips_no_pod s t m h) [
  | inl c ↦ absurd (ground (arith, cancelled_stays (subst (λ x. Walk x u) c w)))
  | inr (inl p) ↦ Memᴰ.head (sym p)
  | inr (inr k) ↦ Memᴰ.tail (settled_needs_pod w k e)
]

delivered_to_settled : Walk delivered settled
unfolding may_move
delivered_to_settled =
    move {t = pod_uploaded} refl (move {t = invoiced} refl (move {t = settled} refl stop))

at_delivery_to_settled : Walk at_delivery settled
unfolding may_move
at_delivery_to_settled = move refl delivered_to_settled

in_transit_to_settled : Walk in_transit settled
unfolding may_move
in_transit_to_settled = move refl at_delivery_to_settled

loaded_to_settled : Walk loaded settled
unfolding may_move
loaded_to_settled = move refl in_transit_to_settled

en_route_to_settled : Walk en_route settled
unfolding may_move
en_route_to_settled = move {t = at_pickup} refl (move refl loaded_to_settled)

-- SETTLED can be reached from every status but CANCELLED.
pub settled_reachable : (s : TripStatus) → s ≢ cancelled → Walk s settled
unfolding may_move
settled_reachable draft _ = move {t = assigned} refl (move refl loaded_to_settled)
settled_reachable assigned _ = move refl loaded_to_settled
settled_reachable en_route _ = en_route_to_settled
settled_reachable at_pickup _ = move refl loaded_to_settled
settled_reachable loaded _ = loaded_to_settled
settled_reachable in_transit _ = in_transit_to_settled
settled_reachable at_delivery _ = at_delivery_to_settled
settled_reachable delivered _ = delivered_to_settled
settled_reachable pod_uploaded _ = move {t = invoiced} refl (move refl stop)
settled_reachable invoiced _ = move refl stop
settled_reachable settled _ = stop
settled_reachable refused _ = move refl loaded_to_settled
settled_reachable breakdown _ = move refl en_route_to_settled
settled_reachable delayed _ = move refl in_transit_to_settled
settled_reachable customs_hold _ = move refl at_delivery_to_settled
settled_reachable cancelled h = absurd (h refl)
