-- ===== src/Market/Ranking.antt =====
-- Scores and rankings of the marketplace (apps/api/src/marketplace.js).
use roadwisefleet.Prelude.{
  ℕ, ◌+◌, ◌≤◌, String, ◌≡◌, List, [], ◌∷◌, map, leb, All, arith, Bool-cases, inl, inr,
}
use roadwisefleet.Market.Matching.{
  Haul, Beacon, Reason, lane_origin, lane_heading, date_fit, equipment_fit, Score, lane_score,
  score_pairing, insert_ranked, rank, rank_beacons,
}

-- What each reason is worth.
abbrev pub weight : Reason → ℕ
weight lane_origin = 50
weight lane_heading = 30
weight date_fit = 20
weight equipment_fit = 30

abbrev pub total : List Reason → ℕ
total [] = 0
total (x ∷ xs) = weight x + total xs

-- A score is the sum of its reasons' weights, and at most 100.
pub score_pairing-total :
    (lower : String → String) (l : Haul) (b : Beacon)
    → ((score_pairing lower l b).score ≡ total (score_pairing lower l b).reasons)
      × ((score_pairing lower l b).score ≤ 100)
unfolding score_pairing lane_score
score_pairing-total lower l b = (ground arith, ground arith)

module _ {A : Type 0} where
  abbrev pub AtMost : ℕ → List (A × Score) → Type 0
  AtMost n = All (λ x. x.1.score ≤ n)

  -- No score after a higher one.
  abbrev pub Falling : List (A × Score) → Type 0
  Falling [] = Unit
  Falling (x ∷ xs) = AtMost x.1.score xs × Falling xs

  AtMost-mono : (m n : ℕ) (xs : List (A × Score)) → m ≤ n → AtMost m xs → AtMost n xs
  AtMost-mono m n [] h a = tt
  AtMost-mono m n (x ∷ xs) h (a, rest) = (omega arith, AtMost-mono m n xs h rest)

  AtMost-insert :
      (n : ℕ) (x : A × Score) (xs : List (A × Score))
      → x.1.score ≤ n
      → AtMost n xs
      → AtMost n (insert_ranked x xs)
  unfolding insert_ranked
  AtMost-insert n x [] h a = (h, tt)
  AtMost-insert n x (y ∷ ys) h (a, rest) = elim (Bool-cases (leb y.1.score x.1.score)) [
    | inl first ↦ rw first (h, (a, rest))
    | inr later ↦ rw later (a, AtMost-insert n x ys h rest)
  ]

  insert-Falling :
      (x : A × Score) (xs : List (A × Score)) → Falling xs → Falling (insert_ranked x xs)
  unfolding insert_ranked
  insert-Falling x [] f = (tt, tt)
  insert-Falling x (y ∷ ys) (a, f) = elim (Bool-cases (leb y.1.score x.1.score)) [
    | inl first ↦
        rw first ((ground arith, AtMost-mono y.1.score x.1.score ys (ground arith) a), (a, f))
    | inr later ↦ rw later (AtMost-insert y.1.score x ys (ground arith) a, insert-Falling x ys f)
  ]

  rank-Falling : (xs : List (A × Score)) → Falling (rank xs)
  unfolding rank
  rank-Falling [] = tt
  rank-Falling (x ∷ xs) = insert-Falling x (rank xs) (rank-Falling xs)

-- A ranking of beacons shows none after one with a higher score.
pub rank_beacons-Falling :
    (lower : String → String) (l : Haul) (bs : List Beacon) → Falling (rank_beacons lower l bs)
unfolding rank_beacons
rank_beacons-Falling lower l bs = rank-Falling (map (λ b. (b, score_pairing lower l b)) bs)
