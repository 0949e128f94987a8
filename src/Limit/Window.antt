-- ===== src/Limit/Window.antt =====
-- The fixed-window limiter of apps/api/src/rate-limit.js and its login variant of
-- apps/api/src/login-limit.js. The map of buckets is a list of entries in the order of insertion.
use Prim.Native.Nat.{max}
use roadwisefleet.Prelude.{
  ℕ, ◌+◌, ◌-◌, ◌/◌, String, Bool, Option, none, some, List, [], ◌∷◌, ◌++◌, ◌==◌, leb, ltb,
  if◌then◌else◌, length, filter,
}

pub record Bucket : Type 0 where
  pub key : String
  pub reset_at : ℕ
  pub count : ℕ

-- The options of `createRateLimiter`; `none` is an option that is left out or unusable.
pub record Options : Type 0 where
  pub window_ms : Option ℕ
  pub max_hits : Option ℕ
  pub max_keys : Option ℕ

pub record Limits : Type 0 where
  pub window_ms : ℕ
  pub max_hits : ℕ
  pub max_keys : ℕ

-- `n > 0 ? n : fallback`
abbrev positive_or : Option ℕ → ℕ → ℕ
positive_or none fallback = fallback
positive_or (some n) fallback = if ltb 0 n then n else fallback

-- The first lines of `createRateLimiter(options)`.
unfoldable pub limits : Options → Limits
limits o = record {
  window_ms = positive_or o.window_ms 900000;
  max_hits = positive_or o.max_hits 10;
  max_keys = positive_or o.max_keys 10000;
}

-- `createLoginLimiter(options)`: ten attempts in five minutes where nothing else is said.
unfoldable pub login_limits : Options → Limits
unfolding limits
login_limits o =
    let max_hits : Option ℕ = elim o.max_hits [ none ↦ some 10 | some n ↦ some n ] in
    limits (record o { window_ms = some (positive_or o.window_ms 300000); max_hits = max_hits })

-- `prune(nowMs)`
unfoldable pub prune : ℕ → List Bucket → List Bucket
prune now = filter (λ b. ltb now b.reset_at)

-- `buckets.get(key)`
unfoldable pub bucket_of : String → List Bucket → Option Bucket
bucket_of k [] = none
bucket_of k (b ∷ bs) = if b.key == k then some b else bucket_of k bs

-- `bucket.count += 1` on the bucket of the key.
unfoldable pub count_hit : String → List Bucket → List Bucket
count_hit k [] = []
count_hit k (b ∷ bs) =
    if b.key == k then record b { count = b.count + 1 } ∷ bs else b ∷ count_hit k bs

-- `trim()`: drops the oldest entries while there are more than `max_keys`.
unfoldable pub trim_buckets : ℕ → List Bucket → List Bucket
trim_buckets max_keys [] = []
trim_buckets max_keys (b ∷ bs) =
    let rest = trim_buckets max_keys bs in if ltb max_keys (length (b ∷ bs)) then rest else b ∷ bs

pub record Verdict : Type 0 where
  pub allowed : Bool
  pub remaining : ℕ
  pub retry_after_seconds : ℕ
  pub reset_at : ℕ

-- The bucket of a hit, and the map with it: a new one where the key has none. A bucket that has
-- ended, for which the source also opens a new one, is none of those that `prune` has kept.
unfoldable pub open_bucket : Limits → ℕ → String → List Bucket → Bucket × List Bucket
unfolding bucket_of
open_bucket l now k bs = elim (bucket_of k bs) [
  | some b ↦ (b, bs)
  | none ↦
      let b : Bucket = record { key = k; reset_at = now + l.window_ms; count = 0 } in
      (b, bs ++ b ∷ [])
]

-- What `check` answers, from the hits counted.
unfoldable pub verdict : Limits → ℕ → Bucket → ℕ → Verdict
verdict l now b hits =
    let allowed = leb hits l.max_hits in
    record {
      allowed = allowed;
      remaining = l.max_hits - hits;
      retry_after_seconds = if allowed then 0 else max 1 ((b.reset_at - now + 999) / 1000);
      reset_at = b.reset_at;
    }

-- `typeof key === 'string' && key.length > 0 ? key : 'unknown'`
abbrev pub bucket_key : String → String
bucket_key key = if key == "" then "unknown" else key

-- `check(key)` at the instant `now`.
unfoldable pub check : Limits → ℕ → String → List Bucket → Verdict × List Bucket
check l now key buckets =
    let (b, bs) = open_bucket l now (bucket_key key) (prune now buckets) in
    (verdict l now b (b.count + 1), trim_buckets l.max_keys (count_hit (bucket_key key) bs))
