-- ===== src/Gps/Laws.antt =====
-- What an accepted batch holds (apps/api/src/gps-ingest.js), and how it is written.
use mathlib.Core.Path.{subst}
use roadwisefleet.Prelude.{
  ℕ, ◌+◌, ◌≤◌, String, ◌≡◌, ◌≢◌, refl, ap, ◌∙◌, inl, inr, false, Option, none, some, List, [], ◌∷◌,
  ◌++◌, map, ◌==◌, eq_iff, length, any, All, arith, Bool-cases,
}
use roadwisefleet.Prelude.Text.{trim}
use roadwisefleet.Js.{Fields, Number, Value, text, above, below_minus, coalesce}
use roadwisefleet.Trip.Tables.{GpsPing}
use roadwisefleet.Trip.Client.{same_ping, insert_new}
use roadwisefleet.Trip.Rows.{any-append, All-append}
use roadwisefleet.Trip.Ingest.{Point, ping_row}
use roadwisefleet.Gps.Points.{
  DateParser, PointError, Parsed-cases, accepted, parse_client_id, parse_degrees, parse_accuracy,
  parse_gps_point, utf16_length, max_accuracy_m, lat_out_of_range, lng_out_of_range,
}
use roadwisefleet.Gps.Batch.{Batch, batch, points, seen, collect, parse_gps_batch}

-- What the source demands of a point.
pub record IsGood (p : Point) : Type 0 where
  pub named : trim p.client_id ≢ ""
  pub short : utf16_length p.client_id ≤ 128
  pub lat_low : below_minus p.lat 90 ≡ false
  pub lat_high : above p.lat 90 ≡ false
  pub lng_low : below_minus p.lng 180 ≡ false
  pub lng_high : above p.lng 180 ≡ false
  pub accurate : (m : ℕ) → p.accuracy_m ≡ some m → m ≤ max_accuracy_m

text_of : (t s : String) → parse_client_id (text t) ≡ accepted s → t ≡ s
unfolding parse_client_id
text_of t s h = ground arith

client_id-good :
    (v : Value) (s : String)
    → parse_client_id v ≡ accepted s
    → (trim s ≢ "") × (utf16_length s ≤ 128)
unfolding parse_client_id
client_id-good (text t) s h =
    (λ e. ground (arith, eq_iff (trim t) "", ap trim (text_of t s h)), ground arith)
client_id-good _ s h = absurd (ground arith)

degrees-good :
    (k : ℕ) (e : PointError) (v : Value) (n : Number)
    → parse_degrees k e v ≡ accepted n
    → (below_minus n k ≡ false) × (above n k ≡ false)
unfolding parse_degrees
degrees-good k e v n h = ground arith

accuracy-good :
    (v : Value) (o : Option ℕ)
    → parse_accuracy v ≡ accepted o
    → (m : ℕ) → o ≡ some m
    → m ≤ max_accuracy_m
unfolding parse_accuracy
accuracy-good v o h m e = ground arith

point_parts :
    (parse : DateParser) (now : ℕ) (f : Fields) (p : Point)
    → parse_gps_point parse now (some f) ≡ accepted p
    → (parse_client_id (coalesce (f "id") (f "clientId")) ≡ accepted p.client_id)
      × (parse_degrees 90 lat_out_of_range (f "lat") ≡ accepted p.lat)
      × (parse_degrees 180 lng_out_of_range (f "lng") ≡ accepted p.lng)
      × (parse_accuracy (coalesce (f "accuracyM") (f "accuracy")) ≡ accepted p.accuracy_m)
unfolding parse_gps_point
point_parts parse now f p h = (ground arith, ground arith, ground arith, ground arith)

-- A point that is accepted is good.
pub parse_gps_point-IsGood :
    (parse : DateParser) (now : ℕ) (raw : Option Fields) (p : Point)
    → parse_gps_point parse now raw ≡ accepted p
    → IsGood p
parse_gps_point-IsGood parse now none p h = absurd (unfold parse_gps_point in ground arith)
parse_gps_point-IsGood parse now (some f) p h =
    let (by_id, by_lat, by_lng, by_accuracy) = point_parts parse now f p h in
    let id = client_id-good (coalesce (f "id") (f "clientId")) p.client_id by_id in
    let lat = degrees-good 90 lat_out_of_range (f "lat") p.lat by_lat in
    let lng = degrees-good 180 lng_out_of_range (f "lng") p.lng by_lng in
    record {
      named = id.0;
      short = id.1;
      lat_low = lat.0;
      lat_high = lat.1;
      lng_low = lng.0;
      lng_high = lng.1;
      accurate = accuracy-good (coalesce (f "accuracyM") (f "accuracy")) p.accuracy_m by_accuracy;
    }

abbrev pub Distinct : List Point → Type 0
Distinct [] = Unit
Distinct (p ∷ ps) = (seen p.client_id ps ≡ false) × Distinct ps

Distinct-snoc :
    (ps : List Point) (p : Point)
    → Distinct ps
    → seen p.client_id ps ≡ false
    → Distinct (ps ++ p ∷ [])
unfolding any
Distinct-snoc [] p d n = (refl, tt)
Distinct-snoc (q ∷ ps) p d n = (
  any-append (λ r. r.client_id == q.client_id) ps (p ∷ [])
      ∙ ground (arith, d.0, eq_iff p.client_id q.client_id, eq_iff q.client_id p.client_id),
  Distinct-snoc ps p d.1 (ground arith),
)

length-snoc : (ps : List Point) (p : Point) → length (ps ++ p ∷ []) ≡ length ps + 1
length-snoc [] p = omega arith
length-snoc (q ∷ ps) p = omega (arith, length-snoc ps p)

-- What an accepted batch of raw points holds.
pub record IsBatch (rows : ℕ) (b : Batch) : Type 0 where
  pub distinct : Distinct b.points
  pub good : All IsGood b.points
  pub accounted : length b.points + b.duplicates ≡ rows

batch_of : (a b : Batch) → batch a ≡ batch b → a ≡ b
batch_of a b h = cc

collect-IsBatch :
    (parse : DateParser) (now : ℕ) (raws : List (Option Fields)) (kept : List Point) (dups : ℕ)
    → Distinct kept
    → All IsGood kept
    → (b : Batch) → collect parse now raws kept dups ≡ batch b
    → IsBatch (length kept + dups + length raws) b
unfolding collect
collect-IsBatch parse now [] kept dups d g b h =
    let e : record { points = kept; duplicates = dups } ≡ b = batch_of _ b h in
    subst (IsBatch (length kept + dups + 0)) e
      (record { distinct = d; good = g; accounted = omega arith })
collect-IsBatch parse now (raw ∷ raws) kept dups d g b h =
    elim (Parsed-cases (parse_gps_point parse now raw)) [
      | inl (e, bad) ↦ absurd (ground arith)
      | inr (p, fine) ↦ elim (Bool-cases (seen p.client_id kept)) [
        | inl old ↦
            let ih = collect-IsBatch parse now raws kept (dups + 1) d g b (ground arith) in
            record {
              distinct = ih.distinct;
              good = ih.good;
              accounted = omega (arith, ih.accounted);
            }
        | inr new ↦
            let ih =
              collect-IsBatch parse now raws (kept ++ p ∷ []) dups (Distinct-snoc kept p d new)
                (All-append IsGood kept (p ∷ []) g
                  (parse_gps_point-IsGood parse now raw p fine, tt))
                b (ground arith) in
            record {
              distinct = ih.distinct;
              good = ih.good;
              accounted = omega (arith, ih.accounted, length-snoc kept p);
            }
      ]
    ]

-- A batch that is accepted accounts for every raw point, and its points are good, of distinct ids
-- and no more than the bound.
pub parse_gps_batch-IsBatch :
    (parse : DateParser) (now max_batch : ℕ) (raws : List (Option Fields)) (b : Batch)
    → parse_gps_batch parse now max_batch (points raws) ≡ batch b
    → IsBatch (length raws) b × (length b.points ≤ max_batch)
unfolding parse_gps_batch
parse_gps_batch-IsBatch parse now max_batch [] b h = absurd (ground arith)
parse_gps_batch-IsBatch parse now max_batch (raw ∷ raws) b h =
    let all = collect-IsBatch parse now (raw ∷ raws) [] 0 tt tt b (ground arith) in
    let small : length (raw ∷ raws) ≤ max_batch = ground arith in
    (
      record { distinct = all.distinct; good = all.good; accounted = omega (arith, all.accounted) },
      omega (arith, all.accounted),
    )

-- None of the kept pings is a row of these points.
abbrev pub Apart : String → List Point → List GpsPing → Type 0
Apart id ps kept = All (λ p. any (same_ping (ping_row id p)) kept ≡ false) ps

Apart-snoc :
    (id : String) (q : Point) (ps : List Point) (kept : List GpsPing)
    → seen q.client_id ps ≡ false
    → Apart id ps kept
    → Apart id ps (kept ++ ping_row id q ∷ [])
unfolding any
Apart-snoc id q [] kept n a = tt
Apart-snoc id q (p ∷ ps) kept n a = (
  any-append (same_ping (ping_row id p)) kept (ping_row id q ∷ [])
      ∙ ground (arith, a.0, eq_iff p.client_id q.client_id),
  Apart-snoc id q ps kept (ground arith) a.1,
)

-- Points of distinct ids of which no ping is there yet are all written.
pub insert_new-Distinct :
    (id : String) (ps : List Point) (kept : List GpsPing)
    → Distinct ps
    → Apart id ps kept
    → (insert_new (map (ping_row id) ps) kept).0 ≡ length ps
unfolding insert_new
insert_new-Distinct id [] kept d a = refl
insert_new-Distinct id (p ∷ ps) kept d a = ground (
  arith,
  a.0,
  insert_new-Distinct id ps (kept ++ ping_row id p ∷ []) d.1 (Apart-snoc id p ps kept d.0 a.1),
)
