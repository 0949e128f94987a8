-- ===== src/Tests/Parts.antt =====
-- Examples on the lifecycle and the permissions.
use roadwisefleet.Prelude.{◌≤◌, ◌+◌, ◌≡◌, refl, some, [], ◌∷◌}
use roadwisefleet.Auth.Permissions.{has_permission}
use roadwisefleet.Auth.Visibility.{can_read_trip, trip_read_scope}
use roadwisefleet.Auth.Wildcards.{in_scope, can_read_trip-scope}
use roadwisefleet.Trip.Status.{
  en_route, at_pickup, delivered, pod_uploaded, invoiced, settled, breakdown, may_move,
}
use roadwisefleet.Trip.Walk.{Walk, stop, move, phase, plain_moves, phase-walk}

paid : Walk delivered settled
unfolding may_move
paid = move {t = pod_uploaded} refl (move {t = invoiced} refl (move refl stop))

phase-walk_example : phase delivered + plain_moves paid ≤ phase settled
phase-walk_example = phase-walk paid

broken_down : Walk en_route at_pickup
unfolding may_move
broken_down = move {t = breakdown} refl (move {t = en_route} refl (move refl stop))

can_read_trip-scope_example :
    can_read_trip (some ("trip:read" ∷ [])) (some "d1") (some "d2")
    ≡ in_scope (trip_read_scope (some ("trip:read" ∷ [])) (some "d1")) (some "d2")
unfolding has_permission
can_read_trip-scope_example =
    can_read_trip-scope (some ("trip:read" ∷ [])) (some "d1") (some "d2") refl
