-- ===== src/Trip/Sound/Ingest.antt =====
-- `ingestGpsPings` (apps/api/src/trips-core.js): it keeps the tables sound, and a batch that is
-- sent again is written once.
use mathlib.Core.Path.{subst}
use roadwisefleet.Prelude.{
  ℕ, ◌≤◌, String, ◌≡◌, refl, sym, ap, ◌∙◌, true, false, Option, List, [], ◌∷◌, ◌++◌, map, eq_iff,
  any, All, length, arith, inl, inr, Bool-cases, Option-cases,
}
use roadwisefleet.Trip.Tables.{GpsPing, Tables, Reply, Reply-cases, ok}
use roadwisefleet.Trip.Client.{TripsClient, IsLawful, same_ping, insert_new}
use roadwisefleet.Trip.Requests.{by_id}
use roadwisefleet.Trip.Ingest.{Point, Ingested, ping_row, check_ingest, ingest_gps_pings}
use roadwisefleet.Trip.Rows.{any-append}
use roadwisefleet.Trip.Sound.{IsSound}
use roadwisefleet.Trip.Sound.Allowed.{found_row}
use roadwisefleet.Trip.Sound.Lookup.{find_by_id}

pings-IsSound : (d : Tables) (ps : List GpsPing) → IsSound d → IsSound (record d { pings = ps })
pings-IsSound d ps sound = record {
  unique = sound.unique;
  single = sound.single;
  rows = sound.rows;
  timeline = sound.timeline;
}

-- Whatever its arguments, an ingest keeps the tables sound.
pub ingest_gps_pings-IsSound :
    (c : TripsClient)
    → IsLawful c
    → (d : Tables) (org_id trip_id : String) (driver_id : Option String) (points : List Point)
    → IsSound d
    → IsSound (ingest_gps_pings c d org_id trip_id driver_id points).1
unfolding ingest_gps_pings
ingest_gps_pings-IsSound c lawful d org_id trip_id driver_id points sound =
    elim (Reply-cases (check_ingest c d org_id trip_id driver_id)) [
      | inl (e, refused) ↦ rw (refused, ingest_gps_pings) sound
      | inr (_, checked) ↦
          rw (checked, ingest_gps_pings, lawful.create_pings_lem) (pings-IsSound d _ sound)
    ]

ping_refl : (p : GpsPing) → same_ping p p ≡ true
ping_refl p = ground (arith, eq_iff p.trip_id p.trip_id, eq_iff p.client_id p.client_id)

-- What is written stays.
kept-insert_new :
    (q : GpsPing) (ps kept : List GpsPing)
    → any (same_ping q) kept ≡ true
    → any (same_ping q) (insert_new ps kept).1 ≡ true
unfolding insert_new
kept-insert_new q [] kept h = h
kept-insert_new q (p ∷ ps) kept h = ground (
  arith,
  kept-insert_new q ps kept,
  kept-insert_new q ps (kept ++ p ∷ []),
  any-append (same_ping q) kept (p ∷ []),
)

added : (p : GpsPing) (kept : List GpsPing) → any (same_ping p) (kept ++ p ∷ []) ≡ true
unfolding any
added p [] = ground (arith, ping_refl p)
added p (q ∷ kept) = ground (arith, added p kept)

insert_old :
    (p : GpsPing) (ps kept : List GpsPing)
    → any (same_ping p) kept ≡ true
    → insert_new (p ∷ ps) kept ≡ insert_new ps kept
unfolding insert_new
insert_old p ps kept h = ground arith

insert_fresh :
    (p : GpsPing) (ps kept : List GpsPing)
    → any (same_ping p) kept ≡ false
    → (insert_new (p ∷ ps) kept).1 ≡ (insert_new ps (kept ++ p ∷ [])).1
unfolding insert_new
insert_fresh p ps kept h = ground arith

abbrev AllKept : List GpsPing → List GpsPing → Type 0
AllKept ps kept = All (λ p. any (same_ping p) kept ≡ true) ps

-- After a batch every row of it is among the pings.
all-insert_new : (ps kept : List GpsPing) → AllKept ps (insert_new ps kept).1
all-insert_new [] kept = tt
all-insert_new (p ∷ ps) kept = elim (Bool-cases (any (same_ping p) kept)) [
  | inl old ↦
      subst (AllKept (p ∷ ps)) (sym (ap (λ (r : ℕ × List GpsPing). r.1) (insert_old p ps kept old)))
        (kept-insert_new p ps kept old, all-insert_new ps kept)
  | inr new ↦
      subst (AllKept (p ∷ ps)) (sym (insert_fresh p ps kept new))
        (kept-insert_new p ps (kept ++ p ∷ []) (added p kept), all-insert_new ps (kept ++ p ∷ []))
]

-- A batch whose rows are all there writes nothing.
insert_new_again :
    (ps kept : List GpsPing)
    → All (λ p. any (same_ping p) kept ≡ true) ps
    → insert_new ps kept ≡ (0, kept)
unfolding insert_new
insert_new_again [] kept h = refl
insert_new_again (p ∷ ps) kept h = ground (arith, h.0, insert_new_again ps kept h.1)

pub insert_new-le : (ps kept : List GpsPing) → (insert_new ps kept).0 ≤ length ps
unfolding insert_new
insert_new-le [] kept = omega arith
insert_new-le (p ∷ ps) kept =
    ground (arith, insert_new-le ps kept, insert_new-le ps (kept ++ p ∷ []))

module _ (c : TripsClient) (lawful : IsLawful c) (d : Tables) (sound : IsSound d)
    (org_id trip_id : String) (driver_id : Option String) where
  -- Written pings change nothing of what the next ingest tests.
  check_ingest-pings :
      (ps : List GpsPing)
      → check_ingest c d org_id trip_id driver_id ≡ ok tt
      → check_ingest c (record d { pings = ps }) org_id trip_id driver_id ≡ ok tt
  unfolding check_ingest
  check_ingest-pings ps h = elim (Option-cases (c.find_trip (by_id trip_id org_id) d)) [
    | inl missed ↦ absurd (ground arith)
    | inr (t, hit) ↦
        let (stands, own, in_org) = found_row lawful hit in
        ground (
          arith,
          find_by_id lawful (record d { pings = ps }) trip_id org_id t sound.unique stands own
              in_org,
        )
  ]

  abbrev written : List Point → ℕ × List GpsPing → Reply Ingested × Tables
  written points w = (
    ok (record {
      accepted = w.0;
      received = length (map (ping_row trip_id) points);
      points = points;
    }),
    record d { pings = w.1 },
  )

  ingest_value :
      (points : List Point) (ps : List GpsPing)
      → check_ingest c (record d { pings = ps }) org_id trip_id driver_id ≡ ok tt
      → ingest_gps_pings c (record d { pings = ps }) org_id trip_id driver_id points
        ≡ written points (insert_new (map (ping_row trip_id) points) ps)
  unfolding ingest_gps_pings
  ingest_value points ps checked = rw (checked, ingest_gps_pings, lawful.create_pings_lem)

  ingest_twice :
      (points : List Point)
      → check_ingest c d org_id trip_id driver_id ≡ ok tt
      → let w = insert_new (map (ping_row trip_id) points) d.pings in
        ingest_gps_pings c (record d { pings = w.1 }) org_id trip_id driver_id points
        ≡ written points (0, w.1)
  ingest_twice points checked =
      let rows = map (ping_row trip_id) points in
      let w = insert_new rows d.pings in
      ingest_value points w.1 (check_ingest-pings w.1 checked)
      ∙ ap (written points) (insert_new_again rows w.1 (all-insert_new rows d.pings))

  -- A batch that was written and is sent again is accepted, and writes nothing.
  pub ingest_again :
      (points : List Point) (r : Ingested)
      → (ingest_gps_pings c d org_id trip_id driver_id points).0 ≡ ok r
      → let d' = (ingest_gps_pings c d org_id trip_id driver_id points).1 in
        ingest_gps_pings c d' org_id trip_id driver_id points ≡ (ok (record r { accepted = 0 }), d')
  ingest_again points r h = elim (Reply-cases (check_ingest c d org_id trip_id driver_id)) [
    | inl (e, refused) ↦ absurd (unfold ingest_gps_pings in ground arith)
    | inr (_, checked) ↦
        let first = ingest_value points d.pings checked in
        rw first (ingest_twice points checked ∙ ground (arith, first))
  ]
