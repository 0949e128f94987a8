-- ===== src/Trip/Isolation.antt =====
-- Tenancy: what a request of one organisation leaves of the others' trips.
use mathlib.Core.List.{Memᴰ}
use roadwisefleet.Prelude.{
  String, ◌≡◌, ◌≢◌, sym, ap, ◌∙◌, Option, List, [], ◌∷◌, ◌++◌, inl, inr, Option-cases,
}
use roadwisefleet.Js.{Fields, Runtime}
use roadwisefleet.Trip.Tables.{Instant, Trip, Tables, Actor, Reply-cases}
use roadwisefleet.Trip.Client.{TripsClient, IsLawful}
use roadwisefleet.Trip.Requests.{check_transition, transition_trip, check_start, start_trip}
use roadwisefleet.Trip.Assign.{check_assign, assign_driver}
use roadwisefleet.Trip.Create.{check_create, commit_create, create_trip}
use roadwisefleet.Trip.Ingest.{check_ingest, ingest_gps_pings}
use roadwisefleet.Trip.Rows.{Mem-update}
use roadwisefleet.Trip.Sound.{IsSound}
use roadwisefleet.Trip.Sound.Allowed.{check_transition-IsAllowed, found_row}
use roadwisefleet.Trip.Sound.Lookup.{same_row}
use roadwisefleet.Trip.Sound.Transition.{commit_transition-after}
use roadwisefleet.Trip.Sound.Assign.{check_assign-IsAssignable, commit_assign-after}
use roadwisefleet.Trip.Service.{Request, create, transition, start, assign, ingest, serve}

-- The organisation that a request comes from.
abbrev pub organisation : Request → String
organisation (create org body actor) = org
organisation (transition org id to actor now) = org
organisation (start org id actor now) = org
organisation (assign org id body actor now) = org
organisation (ingest org id driver points) = org

Mem-append : (t u : Trip) (ts : List Trip) → Memᴰ t ts → Memᴰ t (ts ++ u ∷ [])
Mem-append t u [] m = elim m [ ]
Mem-append t u (x ∷ ts) (Memᴰ.head e) = Memᴰ.head e
Mem-append t u (x ∷ ts) (Memᴰ.tail m) = Memᴰ.tail (Mem-append t u ts m)

module _ (c : TripsClient) (lawful : IsLawful c) (d : Tables) (sound : IsSound d) (t : Trip)
    (stands : Memᴰ t d.trips) (org_id : String) (foreign : t.org_id ≢ org_id) where
  -- A row of another organisation has another key than the row that a request found.
  other_key :
      (id : String) (cur : Trip) → Memᴰ cur d.trips → cur.id ≡ id → cur.org_id ≡ org_id → t.id ≢ id
  other_key id cur m own in_org e =
      foreign (
        ap (λ (x : Trip). x.org_id) (same_row d.trips sound.unique stands m (e ∙ sym own)) ∙ in_org)

  transition_foreign :
      (id to : String) (actor : Option Actor) (now : Instant)
      → Memᴰ t (transition_trip c d org_id id to actor now).1.trips
  unfolding transition_trip
  transition_foreign id to actor now =
      elim (Reply-cases (check_transition c d org_id id to actor)) [
        | inl (e, refused) ↦ rw (refused, transition_trip) stands
        | inr (m, checked) ↦
            let allowed = check_transition-IsAllowed c d org_id id to actor m checked in
            let (found, own, in_org) = found_row lawful allowed.is_found in
            rw (checked, transition_trip)
              (rw (commit_transition-after c lawful d org_id id to actor m allowed now)
                (Mem-update id _ t d.trips (other_key id m.trip found own in_org) stands))
      ]

  assign_foreign :
      (id : String) (body : Option Fields) (actor : Option Actor) (now : Instant)
      → Memᴰ t (assign_driver c d org_id id body actor now).1.trips
  unfolding assign_driver
  assign_foreign id body actor now =
      elim (Reply-cases (check_assign c d org_id id body actor now)) [
        | inl (e, refused) ↦ rw (refused, assign_driver) stands
        | inr (a, checked) ↦
            let allowed = check_assign-IsAssignable c d org_id id body actor now a checked in
            let (found, own, in_org) = found_row lawful allowed.is_found in
            rw (checked, assign_driver)
              (rw (commit_assign-after c lawful d org_id id body actor now a allowed)
                (Mem-update id _ t d.trips (other_key id a.trip found own in_org) stands))
      ]

  start_foreign :
      (id : String) (actor : Option Actor) (now : Instant)
      → Memᴰ t (start_trip c d org_id id actor now).1.trips
  unfolding start_trip
  start_foreign id actor now = elim (Reply-cases (check_start c d org_id id actor)) [
    | inl (e, refused) ↦ rw (refused, start_trip) stands
    | inr (_, checked) ↦ rw (checked, start_trip) (transition_foreign id "EN_ROUTE" actor now)
  ]

  create_stands :
      (r : Runtime) (body : Option Fields) (actor : Option Actor)
      → Memᴰ t (create_trip c d r org_id body actor).1.trips
  unfolding create_trip commit_create
  create_stands r body actor = elim (Reply-cases (check_create c d r org_id body actor)) [
    | inl (e, refused) ↦ rw (refused, create_trip) stands
    | inr (input, checked) ↦
        rw (checked, create_trip)
          (elim (Option-cases input.planned_at) [
            | inl e ↦
                rw (e, commit_create, lawful.create_trip_tables) (Mem-append t _ d.trips stands)
            | inr (at, e) ↦
                rw (e, commit_create, lawful.create_trip_tables)
                  (Mem-append t _ _ (rw lawful.update_order_tables stands))
          ])
  ]

  ingest_stands :
      (id : String) (driver : Option String) (points : List _)
      → Memᴰ t (ingest_gps_pings c d org_id id driver points).1.trips
  unfolding ingest_gps_pings
  ingest_stands id driver points = elim (Reply-cases (check_ingest c d org_id id driver)) [
    | inl (e, refused) ↦ rw (refused, ingest_gps_pings) stands
    | inr (_, checked) ↦ rw (checked, ingest_gps_pings, lawful.create_pings_lem) stands
  ]

-- No request of one organisation changes or removes a trip of another.
pub serve_foreign :
    (c : TripsClient)
    → IsLawful c
    → (r : Runtime) (d : Tables) (q : Request) (t : Trip) → IsSound d
    → Memᴰ t d.trips
    → t.org_id ≢ organisation q
    → Memᴰ t (serve c r d q).trips
unfolding serve
serve_foreign c l r d (create org body actor) t s m f = create_stands c l d s t m org f r body actor
serve_foreign c l r d (transition org id to actor now) t s m f =
    transition_foreign c l d s t m org f id to actor now
serve_foreign c l r d (start org id actor now) t s m f =
    start_foreign c l d s t m org f id actor now
serve_foreign c l r d (assign org id body actor now) t s m f =
    assign_foreign c l d s t m org f id body actor now
serve_foreign c l r d (ingest org id driver points) t s m f =
    ingest_stands c l d s t m org f id driver points
