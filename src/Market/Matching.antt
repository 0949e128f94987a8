-- ===== src/Market/Matching.antt =====
-- Matching of loads, filters and beacons: `laneMatches`, `dateFits`, `equipmentFits`,
-- `filterLoads`, `scorePairing`, `rankBeacons` and `rankLoadsForBeacon` of
-- apps/api/src/marketplace.js. `toLowerCase` is built in, and a parameter; a bound of a filter
-- that is no date is absent.
use Prim.Native.Char.{code}
use Prim.Native.String.{[], ◌∷◌}
use roadwisefleet.Prelude.{
  ℕ, ◌+◌, String, Bool, true, false, not, ◌&&◌, ◌||◌, Option, none, some, List, map, ◌++◌, ◌==◌,
  leb, ltb, filter, if◌then◌else◌,
}
use roadwisefleet.Prelude.Text.{trim}

pub record Haul : Type 0 where
  pub origin : Option String
  pub destination : Option String
  pub equipment : Option String
  pub load_ready_at : Option ℕ

pub record Filter : Type 0 where
  pub origin : Option String
  pub destination : Option String
  pub equipment : Option String
  pub ready_from : Option ℕ
  pub ready_to : Option ℕ

pub record Beacon : Type 0 where
  pub location : Option String
  pub heading : Option String
  pub equipment : Option String
  pub available_from : Option ℕ

starts : String → String → Bool
starts [] s = true
starts (c ∷ p) [] = false
starts (c ∷ p) (d ∷ s) = leb (code c) (code d) && leb (code d) (code c) && starts p s

-- `s.includes(part)`
unfoldable pub contains : String → String → Bool
unfolding starts
contains [] part = part == ""
contains (c ∷ s) part = let rest = contains s part in starts part (c ∷ s) || rest

-- `a && a < b`, for instants of which either may be absent.
abbrev before : Option ℕ → Option ℕ → Bool
before (some a) (some b) = ltb a b
before _ _ = false

-- `dateFits(load, filter)`
unfoldable pub date_fits : Haul → Filter → Bool
date_fits l f = not (before l.load_ready_at f.ready_from) && not (before f.ready_to l.load_ready_at)

pub data Reason : Type 0 where
  lane_origin lane_heading date_fit equipment_fit : Reason

pub record Score : Type 0 where
  pub score : ℕ
  pub reasons : List Reason

module _ (lower : String → String) where
  -- `normText(value)`
  unfoldable pub norm_text : Option String → String
  norm_text none = ""
  norm_text (some s) = lower (trim s)

  -- `laneMatches(load, filter)`
  unfoldable pub lane_matches : Haul → Filter → Bool
  lane_matches l f =
      let origin = norm_text f.origin in
      let destination = norm_text f.destination in
      if not (origin == "") && not (contains (norm_text l.origin) origin)
      then false
      else not (not (destination == "") && not (contains (norm_text l.destination) destination))

  -- `equipmentFits(load, equipment)`
  unfoldable pub equipment_fits : Haul → Option String → Bool
  equipment_fits l equipment =
      let wanted = norm_text equipment in
      if wanted == "" then true else norm_text l.equipment == wanted

  -- `filterLoads(loads, filter)`
  unfoldable pub filter_loads : List Haul → Filter → List Haul
  filter_loads ls f =
      filter (λ l. lane_matches l f && date_fits l f && equipment_fits l f.equipment) ls

  -- The lane's part of a score.
  unfoldable pub lane_score : Haul → Beacon → Score
  lane_score l b =
      let location = norm_text b.location in
      let origin = norm_text l.origin in
      let destination = norm_text l.destination in
      let heading = norm_text b.heading in
      if not (location == "")
        && not (origin == "")
        && (contains location origin || contains origin location)
      then record { score = 50; reasons = List.◌∷◌ lane_origin List.[] }
      else if not (heading == "") && (contains heading destination || contains destination heading)
      then record { score = 30; reasons = List.◌∷◌ lane_heading List.[] }
      else record { score = 0; reasons = List.[] }

  -- What a test adds to a score.
  abbrev add_if : Bool → ℕ → Reason → Score → Score
  add_if true n why s = record { score = s.score + n; reasons = s.reasons ++ List.◌∷◌ why List.[] }
  add_if false n why s = s

  -- `scorePairing(load, beacon)`
  unfoldable pub score_pairing : Haul → Beacon → Score
  score_pairing l b =
      add_if (equipment_fits l b.equipment) 30 equipment_fit
        (add_if (not (before l.load_ready_at b.available_from)) 20 date_fit (lane_score l b))

module _ {A : Type 0} where
  -- A place of the stable `sort` by descending score.
  unfoldable pub insert_ranked : A × Score → List (A × Score) → List (A × Score)
  insert_ranked x List.[] = List.◌∷◌ x List.[]
  insert_ranked x (List.◌∷◌ y ys) =
      let rest = insert_ranked x ys in
      if leb y.1.score x.1.score then List.◌∷◌ x (List.◌∷◌ y ys) else List.◌∷◌ y rest

  unfoldable pub rank : List (A × Score) → List (A × Score)
  rank List.[] = List.[]
  rank (List.◌∷◌ x xs) = insert_ranked x (rank xs)

-- `rankBeacons(load, beacons)` and `rankLoadsForBeacon(beacon, loads)`
unfoldable pub rank_beacons : (String → String) → Haul → List Beacon → List (Beacon × Score)
rank_beacons lower l bs = rank (map (λ b. (b, score_pairing lower l b)) bs)

unfoldable pub rank_loads_for_beacon : (String → String) → Beacon → List Haul → List (Haul × Score)
rank_loads_for_beacon lower b ls = rank (map (λ l. (l, score_pairing lower l b)) ls)
