-- ===== src/Limit/Bounds.antt =====
-- What the limiter of apps/api/src/rate-limit.js promises.
use roadwisefleet.Prelude.{
  ℕ, ◌+◌, ◌≤◌, ◌<◌, String, ◌≡◌, refl, ◌∙◌, false, none, some, List, [], ◌∷◌, ◌++◌, ◌==◌, eq_iff,
  leb, if◌then◌else◌, length, filter, arith, Option-cases, inl, inr,
}
use roadwisefleet.Limit.Window.{
  Bucket, Limits, prune, bucket_of, count_hit, trim_buckets, open_bucket, verdict, check,
  bucket_key,
}

length-trim : (k : ℕ) (bs : List Bucket) → length (trim_buckets k bs) ≤ k
unfolding trim_buckets
length-trim k [] = omega arith
length-trim k (b ∷ bs) = ground (arith, length-trim k bs)

-- The map never holds more keys than it may.
pub check_bounded :
    (l : Limits) (now : ℕ) (key : String) (bs : List Bucket)
    → length (check l now key bs).1 ≤ l.max_keys
unfolding check
check_bounded l now key bs =
    length-trim l.max_keys
      (count_hit (bucket_key key) (open_bucket l now (bucket_key key) (prune now bs)).1)

trim_small : (k : ℕ) (bs : List Bucket) → length bs ≤ k → trim_buckets k bs ≡ bs
unfolding trim_buckets
trim_small k [] h = refl
trim_small k (b ∷ bs) h = ground arith

length-count_hit : (k : String) (bs : List Bucket) → length (count_hit k bs) ≡ length bs
unfolding count_hit
length-count_hit k [] = refl
length-count_hit k (b ∷ bs) = ground (arith, length-count_hit k bs)

length-prune : (now : ℕ) (bs : List Bucket) → length (prune now bs) ≤ length bs
unfolding prune filter
length-prune now [] = omega arith
length-prune now (b ∷ bs) = ground (arith, length-prune now bs)

length-snoc : (bs : List Bucket) (b : Bucket) → length (bs ++ b ∷ []) ≡ length bs + 1
length-snoc [] b = omega arith
length-snoc (x ∷ bs) b = omega (arith, length-snoc bs b)

length-open :
    (l : Limits) (now : ℕ) (k : String) (bs : List Bucket)
    → length (open_bucket l now k bs).1 ≤ length bs + 1
unfolding open_bucket
length-open l now k bs = elim (Option-cases (bucket_of k bs)) [
  | inl new ↦
      rw (new, open_bucket)
        (omega
          (arith, length-snoc bs (record { key = k; reset_at = now + l.window_ms; count = 0 })))
  | inr (b, old) ↦ rw (old, open_bucket) (omega arith)
]

bucket_of-prune :
    (now : ℕ) (k : String) (bs : List Bucket) {b : Bucket}
    → bucket_of k bs ≡ some b
    → now < b.reset_at
    → bucket_of k (prune now bs) ≡ some b
unfolding bucket_of prune filter
bucket_of-prune now k [] h live = absurd (ground arith)
bucket_of-prune now k (x ∷ bs) {b} h live = ground (arith, bucket_of-prune now k bs {b = b})

pub bucket_of-count_hit :
    (k j : String) (bs : List Bucket) {b : Bucket}
    → bucket_of k bs ≡ some b
    → bucket_of k (count_hit j bs) ≡ some (if j == k then record b { count = b.count + 1 } else b)
unfolding bucket_of count_hit
bucket_of-count_hit k j [] h = absurd (ground arith)
bucket_of-count_hit k j (x ∷ bs) {b} h =
    ground (arith, bucket_of-count_hit k j bs {b = b}, eq_iff x.key j, eq_iff x.key k, eq_iff j k)

bucket_of-snoc :
    (k : String) (bs : List Bucket) (x : Bucket) {b : Bucket}
    → bucket_of k bs ≡ some b
    → bucket_of k (bs ++ x ∷ []) ≡ some b
unfolding bucket_of
bucket_of-snoc k [] x h = absurd (ground arith)
bucket_of-snoc k (y ∷ bs) x {b} h = ground (arith, bucket_of-snoc k bs x {b = b})

pub bucket_of-snoc_new :
    (k : String) (bs : List Bucket) (x : Bucket)
    → bucket_of k bs ≡ none
    → bucket_of k (bs ++ x ∷ []) ≡ (if x.key == k then some x else none)
unfolding bucket_of
bucket_of-snoc_new k [] x h = refl
bucket_of-snoc_new k (y ∷ bs) x h = ground (arith, bucket_of-snoc_new k bs x)

bucket_of-open :
    (l : Limits) (now : ℕ) (k j : String) (bs : List Bucket) {b : Bucket}
    → bucket_of k bs ≡ some b
    → bucket_of k (open_bucket l now j bs).1 ≡ some b
unfolding open_bucket
bucket_of-open l now k j bs {b} h = elim (Option-cases (bucket_of j bs)) [
  | inl new ↦ rw (new, open_bucket) (bucket_of-snoc k bs _ h)
  | inr (x, old) ↦ rw (old, open_bucket) h
]

-- What one check does to the bucket of a key that is live, while no entry is dropped.
module _ (l : Limits) (now : ℕ) (key : String) (bs : List Bucket)
    (room : length bs + 1 ≤ l.max_keys) where
  pub check_untrimmed :
      (check l now key bs).1
      ≡ count_hit (bucket_key key) (open_bucket l now (bucket_key key) (prune now bs)).1
  unfolding check
  check_untrimmed = trim_small l.max_keys _ (
      omega (
        arith,
        length-count_hit (bucket_key key) (open_bucket l now (bucket_key key) (prune now bs)).1,
        length-open l now (bucket_key key) (prune now bs),
        length-prune now bs,
      ))

  pub length-check : length (check l now key bs).1 ≤ length bs + 1
  length-check = rw check_untrimmed (
      omega (
        arith,
        length-count_hit (bucket_key key) (open_bucket l now (bucket_key key) (prune now bs)).1,
        length-open l now (bucket_key key) (prune now bs),
        length-prune now bs,
      ))

  pub check_live :
      (k : String) {b : Bucket}
      → bucket_of k bs ≡ some b
      → now < b.reset_at
      → bucket_of k (check l now key bs).1
        ≡ some (if bucket_key key == k then record b { count = b.count + 1 } else b)
  check_live k h live = rw check_untrimmed (
      bucket_of-count_hit k (bucket_key key) (open_bucket l now (bucket_key key) (prune now bs)).1
        (bucket_of-open l now k (bucket_key key) (prune now bs) (bucket_of-prune now k bs h live)))

  -- The answer for a key whose bucket is live.
  pub check_verdict :
      {b : Bucket}
      → bucket_of (bucket_key key) bs ≡ some b
      → now < b.reset_at
      → (check l now key bs).0.allowed ≡ leb (b.count + 1) l.max_hits
  unfolding check open_bucket verdict
  check_verdict {b} h live = rw (bucket_of-prune now (bucket_key key) bs h live, open_bucket)

-- What one check does for a key that has no bucket.
pub bucket_of-prune-none :
    (now : ℕ) (k : String) (bs : List Bucket)
    → bucket_of k bs ≡ none
    → bucket_of k (prune now bs) ≡ none
unfolding bucket_of prune filter
bucket_of-prune-none now k [] h = refl
bucket_of-prune-none now k (x ∷ bs) h = ground (arith, bucket_of-prune-none now k bs)

bucket_of-count_hit-none :
    (k j : String) (bs : List Bucket) → bucket_of k bs ≡ none → bucket_of k (count_hit j bs) ≡ none
unfolding bucket_of count_hit
bucket_of-count_hit-none k j [] h = refl
bucket_of-count_hit-none k j (x ∷ bs) h = ground (arith, bucket_of-count_hit-none k j bs)

bucket_of-open_none :
    (l : Limits) (now : ℕ) (k j : String) (bs : List Bucket)
    → (j == k) ≡ false
    → bucket_of k bs ≡ none
    → bucket_of k (open_bucket l now j bs).1 ≡ none
unfolding open_bucket
bucket_of-open_none l now k j bs other h = elim (Option-cases (bucket_of j bs)) [
  | inl new ↦
      rw (new, open_bucket)
        (ground (
          arith,
          bucket_of-snoc_new k bs (record { key = j; reset_at = now + l.window_ms; count = 0 }),
        ))
  | inr (x, old) ↦ rw (old, open_bucket) h
]

module _ (l : Limits) (now : ℕ) (key : String) (bs : List Bucket)
    (room : length bs + 1 ≤ l.max_keys) where
  pub check_other :
      (k : String)
      → (bucket_key key == k) ≡ false
      → bucket_of k bs ≡ none
      → bucket_of k (check l now key bs).1 ≡ none
  check_other k other h = rw (check_untrimmed l now key bs room) (
      bucket_of-count_hit-none k (bucket_key key)
        (open_bucket l now (bucket_key key) (prune now bs)).1
        (bucket_of-open_none l now k (bucket_key key) (prune now bs) other
          (bucket_of-prune-none now k bs h)))

  -- The first hit of a key opens its window and is allowed.
  pub check_first :
      bucket_of (bucket_key key) bs ≡ none
      → ((check l now key bs).0.allowed ≡ leb 1 l.max_hits)
        × (bucket_of (bucket_key key) (check l now key bs).1
            ≡ some (record { key = bucket_key key; reset_at = now + l.window_ms; count = 1 }))
  unfolding check open_bucket verdict
  check_first h =
      let new = bucket_of-prune-none now (bucket_key key) bs h in
      let b : Bucket = record { key = bucket_key key; reset_at = now + l.window_ms; count = 0 } in
      (
        rw (new, open_bucket),
        rw (check_untrimmed l now key bs room) (
            rw (new, open_bucket)
              (bucket_of-count_hit (bucket_key key) (bucket_key key) (prune now bs ++ b ∷ [])
                  {b = b}
                  (bucket_of-snoc_new (bucket_key key) (prune now bs) b new
                    ∙ ground (arith, eq_iff (bucket_key key) (bucket_key key)))
                ∙ ground (arith, eq_iff (bucket_key key) (bucket_key key)))),
      )
