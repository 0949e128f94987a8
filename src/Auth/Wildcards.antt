-- ===== src/Auth/Wildcards.antt =====
-- What the wildcard permissions imply, and that a reader's list and its single reads agree
-- (apps/api/src/auth/permissions.js, apps/api/src/trip-visibility.js).
use roadwisefleet.Prelude.{
  String, ◌≡◌, inl, inr, Bool, true, false, ◌||◌, Option, none, some, List, [], ◌∷◌, ◌==◌, eq_iff,
  any, same, arith, Bool-cases, ap, sym, ◌∙◌,
}
use roadwisefleet.Prelude.Text.{before_colon}
use roadwisefleet.Auth.Permissions.{Granted, grants, has_permission}
use roadwisefleet.Auth.Visibility.{can_read_trip, ReadScope, trip_read_scope}

trip_grants :
    (required p : String)
    → before_colon required ≡ "trip"
    → grants "trip:*" p ≡ true
    → grants required p ≡ true
unfolding grants before_colon
trip_grants required p e h = rw e (ground (arith, h))

any-grants :
    (required : String) (ps : List String)
    → before_colon required ≡ "trip"
    → any (grants "trip:*") ps ≡ true
    → any (grants required) ps ≡ true
unfolding any
any-grants required [] e h = h
any-grants required (p ∷ ps) e h =
    ground (arith, trip_grants required p e, any-grants required ps e)

nonempty : (s : String) → before_colon s ≡ "trip" → (s == "") ≡ false
unfolding before_colon
nonempty s e = elim (Bool-cases (s == "")) [
  | inr some_text ↦ some_text
  | inl empty ↦
      let k : "" ≡ "trip" = ap before_colon (sym ((eq_iff s "").0 empty)) ∙ e in
      absurd (ground (arith, k, eq_iff "" "trip"))
]

-- Who is granted `trip:*` (by that name or by `*`) has every permission of the resource `trip`.
pub has_permission-wildcard :
    (granted : Granted) (required : String)
    → before_colon required ≡ "trip"
    → has_permission granted "trip:*" ≡ true
    → has_permission granted required ≡ true
unfolding has_permission
has_permission-wildcard none required e h = h
has_permission-wildcard (some ps) required e h =
    ground (arith, any-grants required ps e, nonempty required e)

-- The trips that a list with the scope shows.
unfoldable pub in_scope : ReadScope → Option String → Bool
in_scope s trip_driver_id =
    s.org_wide || elim s.driver_id [ none ↦ false | some u ↦ same (some u) trip_driver_id ]

-- For a holder of `trip:read`, the list shows exactly the trips that may be read one by one.
pub can_read_trip-scope :
    (granted : Granted) (user_id trip_driver_id : Option String)
    → has_permission granted "trip:read" ≡ true
    → can_read_trip granted user_id trip_driver_id
      ≡ in_scope (trip_read_scope granted user_id) trip_driver_id
unfolding can_read_trip trip_read_scope in_scope
can_read_trip-scope granted user_id trip_driver_id h = ground arith
