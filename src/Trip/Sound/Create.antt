-- ===== src/Trip/Sound/Create.antt =====
-- `createTrip` (apps/api/src/trips-core.js) keeps the tables sound.
use roadwisefleet.Prelude.{
  String, ◌≡◌, refl, sym, ap, ◌∙◌, false, Option, none, some, List, [], ◌∷◌, ◌++◌, ◌==◌, eq_iff,
  any, Bool-cases, Option-cases, arith, inl, inr,
}
use roadwisefleet.Js.{Fields, Runtime}
use roadwisefleet.Trip.Status.{TripStatus, draft, is_active_assignment}
use roadwisefleet.Trip.Tables.{Trip, StatusEvent, Tables, TripData, Actor, Reply-cases}
use roadwisefleet.Trip.Client.{TripsClient, IsLawful, matches, has_id}
use roadwisefleet.Trip.Requests.{active_of}
use roadwisefleet.Trip.Create.{CreateInput, check_create, draft_data, commit_create, create_trip}
use roadwisefleet.Trip.Rows.{Unique, count, any-append, count-append, All-append, bit}
use roadwisefleet.Trip.Sound.{assignments, follow, RowIsSound, IsSound}
use roadwisefleet.Trip.Sound.Allowed.{held_by}

Unique-append :
    (t : Trip) (ts : List Trip) → Unique ts → any (has_id t.id) ts ≡ false → Unique (ts ++ t ∷ [])
unfolding any
Unique-append t [] h n = (refl, tt)
Unique-append t (x ∷ ts) h n = (
  any-append (has_id x.id) ts (t ∷ []) ∙ ground (arith, h.0, eq_iff x.id t.id, eq_iff t.id x.id),
  Unique-append t ts h.1 (ground arith),
)

-- No event names the key, so the events lead nowhere from where they start.
follow_fresh :
    (id : String) (s : TripStatus) (es : List StatusEvent)
    → any (λ e. e.trip_id == id) es ≡ false
    → follow id s es ≡ some s
unfolding follow any
follow_fresh id s [] h = refl
follow_fresh id s (e ∷ es) h = ground (arith, follow_fresh id s es)

idle_draft : (o k : String) (t : Trip) → t.status ≡ draft → matches (active_of o k none) t ≡ false
unfolding is_active_assignment
idle_draft o k t h = elim (Bool-cases (matches (active_of o k none) t)) [
  | inl holds ↦ absurd (ground (arith, held_by o k t holds))
  | inr idle ↦ idle
]

draft-RowIsSound : (t : Trip) → t.status ≡ draft → t.tracking ≡ false → RowIsSound t
draft-RowIsSound t is_draft idle = ground arith

-- One more row: a DRAFT under a new key.
pub append-IsSound :
    (d : Tables) (t : Trip)
    → t.status ≡ draft
    → t.tracking ≡ false
    → any (has_id t.id) d.trips ≡ false
    → any (λ e. e.trip_id == t.id) d.events ≡ false
    → IsSound d
    → IsSound (record d { trips = d.trips ++ t ∷ [] })
unfolding assignments count
append-IsSound d t is_draft idle fresh unused sound = record {
  unique = Unique-append t d.trips sound.unique fresh;
  single = λ o k real. omega (
    arith,
    count-append (matches (active_of o k none)) d.trips (t ∷ []),
    ap bit (idle_draft o k t is_draft),
    sound.single o k real,
  );
  rows = All-append RowIsSound d.trips (t ∷ []) sound.rows (draft-RowIsSound t is_draft idle, tt);
  timeline =
      All-append (λ x. follow x.id draft d.events ≡ some x.status) d.trips (t ∷ []) sound.timeline
        (follow_fresh t.id draft d.events unused ∙ ap some (sym is_draft), tt);
}

orders-IsSound : (d e : Tables) → e ≡ record d { orders = e.orders } → IsSound d → IsSound e
orders-IsSound d e h sound = rw h (record {
  unique = sound.unique;
  single = sound.single;
  rows = sound.rows;
  timeline = sound.timeline;
})

module _ (c : TripsClient) (lawful : IsLawful c) where
  create-IsSound :
      (x : TripData) (d : Tables) → x.status ≡ draft → IsSound d → IsSound (c.create_trip x d).1
  create-IsSound x d is_draft sound =
      let t = (c.create_trip x d).0 in
      let row = lawful.create_trip_row x d in
      let (fresh, unused) = lawful.create_trip_fresh x d in
      rw (lawful.create_trip_tables x d)
        (append-IsSound d t (row.4 ∙ is_draft) row.6 fresh unused sound)

  pub commit_create-IsSound :
      (d : Tables) (org_id : String) (input : CreateInput)
      → IsSound d
      → IsSound (commit_create c d org_id input).1
  unfolding commit_create
  commit_create-IsSound d org_id input sound = elim (Option-cases input.planned_at) [
    | inl e ↦ rw (e, commit_create) (create-IsSound (draft_data org_id input) d refl sound)
    | inr (at, e) ↦
        rw (e, commit_create)
          (create-IsSound (draft_data org_id input) (c.update_order input.order_id at d) refl
            (orders-IsSound d _ (lawful.update_order_tables input.order_id at d) sound))
  ]

-- Whatever its arguments, a creation keeps the tables sound.
pub create_trip-IsSound :
    (c : TripsClient)
    → IsLawful c
    → (d : Tables) (r : Runtime) (org_id : String) (body : Option Fields) (actor : Option Actor)
    → IsSound d
    → IsSound (create_trip c d r org_id body actor).1
unfolding create_trip
create_trip-IsSound c lawful d r org_id body actor sound =
    elim (Reply-cases (check_create c d r org_id body actor)) [
      | inl (e, refused) ↦ rw (refused, create_trip) sound
      | inr (input, checked) ↦
          rw (checked, create_trip) (commit_create-IsSound c lawful d org_id input sound)
    ]
