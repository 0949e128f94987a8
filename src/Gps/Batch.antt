-- ===== src/Gps/Batch.antt =====
-- A batch of points: `parseGpsBatch` of apps/api/src/gps-ingest.js.
use roadwisefleet.Prelude.{
  ℕ, ◌+◌, String, Bool, true, false, Option, List, [], ◌∷◌, ◌++◌, ◌==◌, ltb, if◌then◌else◌, length,
  any,
}
use roadwisefleet.Js.{Fields}
use roadwisefleet.Trip.Ingest.{Point}
use roadwisefleet.Gps.Points.{DateParser, PointError, accepted, rejected, parse_gps_point}

pub data BatchError : Type 0 where
  body_object_required points_array_required points_empty batch_too_large : BatchError
  bad_point : PointError → BatchError

pub record Batch : Type 0 where
  pub points : List Point
  pub duplicates : ℕ

pub data BatchReply : Type 0 where
  batch : Batch → BatchReply
  invalid_gps : BatchError → BatchReply

-- A request body: no plain object, one whose `points` is no array, or one with the raw points.
pub data Body : Type 0 where
  no_object no_points : Body
  points : List (Option Fields) → Body

-- `seen.has(id)`: the ids seen are those of the points kept so far.
abbrev pub seen : String → List Point → Bool
seen id = any (λ p. p.client_id == id)

-- The loop of `parseGpsBatch`.
unfoldable pub collect : DateParser → ℕ → List (Option Fields) → List Point → ℕ → BatchReply
collect parse now [] kept dups = batch (record { points = kept; duplicates = dups })
collect parse now (raw ∷ raws) kept dups = elim (parse_gps_point parse now raw) [
  | rejected e ↦ invalid_gps (bad_point e)
  | accepted p ↦ elim (seen p.client_id kept) [
    | true ↦ collect parse now raws kept (dups + 1)
    | false ↦ collect parse now raws (kept ++ p ∷ []) dups
  ]
]

-- `parseGpsBatch(body, { now, maxBatch })`
unfoldable pub parse_gps_batch : DateParser → ℕ → ℕ → Body → BatchReply
parse_gps_batch parse now max_batch no_object = invalid_gps body_object_required
parse_gps_batch parse now max_batch no_points = invalid_gps points_array_required
parse_gps_batch parse now max_batch (points []) = invalid_gps points_empty
parse_gps_batch parse now max_batch (points (raw ∷ raws)) =
    if ltb max_batch (length (raw ∷ raws))
    then invalid_gps batch_too_large
    else collect parse now (raw ∷ raws) [] 0
