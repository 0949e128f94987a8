-- ===== src/Limit/Quota.antt =====
-- The quota of one key over one window (apps/api/src/rate-limit.js).
use mathlib.Core.Path.{subst}
use roadwisefleet.Prelude.{
  ℕ, ◌+◌, ◌-◌, ◌≤◌, ◌<◌, String, ◌≡◌, ◌∙◌, Bool, true, false, ◌&&◌, none, some, List, [], ◌∷◌, ◌==◌,
  eq_iff, leb, if◌then◌else◌, length, arith, Bool-cases, inl, inr, All,
}
use roadwisefleet.Limit.Window.{Bucket, Limits, bucket_of, bucket_key, check}
use roadwisefleet.Limit.Bounds.{length-check, check_live, check_verdict, check_other, check_first}

-- A hit: its instant and its key.
pub record Hit : Type 0 where
  pub at : ℕ
  pub key : String

abbrev pub bit : Bool → ℕ
bit true = 1
bit false = 0

-- How many of the hits of key `k` are allowed, the checks made one after another.
unfoldable pub allowed_hits : Limits → String → List Hit → List Bucket → ℕ
allowed_hits l k [] bs = 0
allowed_hits l k (h ∷ hs) bs =
    let (v, bs') = check l h.at h.key bs in
    bit (v.allowed && bucket_key h.key == k) + allowed_hits l k hs bs'

abbrev pub Before : ℕ → List Hit → Type 0
Before end = All (λ h. h.at < end)

step_live :
    (l : Limits) (k : String) (h : Hit) (bs : List Bucket) {b : Bucket}
    → length bs + 1 ≤ l.max_keys
    → bucket_of k bs ≡ some b
    → h.at < b.reset_at
    → bit ((check l h.at h.key bs).0.allowed && bucket_key h.key == k)
      ≡ (if bucket_key h.key == k then bit (leb (b.count + 1) l.max_hits) else 0)
step_live l k h bs {b} room e live = elim (Bool-cases (bucket_key h.key == k)) [
  | inl own ↦ rw own (
      ground (
        arith,
        check_verdict l h.at h.key bs room {b = b} (rw ((eq_iff (bucket_key h.key) k).0 own) e)
            live,
      ))
  | inr other ↦ rw other (ground arith)
]

-- While the key's bucket is live, no more hits are allowed than the bucket has left.
live_quota :
    (l : Limits) (k : String) (hs : List Hit) (bs : List Bucket) (b : Bucket)
    → bucket_of k bs ≡ some b
    → Before b.reset_at hs
    → length bs + length hs ≤ l.max_keys
    → allowed_hits l k hs bs ≤ l.max_hits - b.count
unfolding allowed_hits
live_quota l k [] bs b e live room = omega arith
live_quota l k (h ∷ hs) bs b e live room =
    let space : length bs + 1 ≤ l.max_keys = omega arith in
    let now = step_live l k h bs space e live.0 in
    let shorter = length-check l h.at h.key bs space in
    let next = check_live l h.at h.key bs space k e live.0 in
    elim (Bool-cases (bucket_key h.key == k)) [
      | inl own ↦ ground (
        arith,
        now,
        live_quota l k hs (check l h.at h.key bs).1 (record b { count = b.count + 1 })
            (next ∙ ground arith) live.1 (omega arith),
      )
      | inr other ↦ ground (
        arith,
        now,
        live_quota l k hs (check l h.at h.key bs).1 b (next ∙ ground arith) live.1 (omega arith),
      )
    ]

abbrev pub Within : ℕ → ℕ → List Hit → Type 0
Within begin window = All (λ h. (begin ≤ h.at) × (h.at < begin + window))

Within-Before :
    (begin window end : ℕ) (hs : List Hit)
    → begin ≤ end
    → Within begin window hs
    → Before (end + window) hs
Within-Before begin window end [] le w = tt
Within-Before begin window end (h ∷ hs) le w =
    (omega arith, Within-Before begin window end hs le w.1)

-- A key that has no bucket gets at most `max_hits` hits allowed within one window's length, whatever
-- else is checked meanwhile, while the map has room for all the keys.
pub window_quota :
    (l : Limits) (k : String) (begin : ℕ) (hs : List Hit) (bs : List Bucket)
    → bucket_of k bs ≡ none
    → Within begin l.window_ms hs
    → length bs + length hs ≤ l.max_keys
    → allowed_hits l k hs bs ≤ l.max_hits
unfolding allowed_hits
window_quota l k begin [] bs e w room = omega arith
window_quota l k begin (h ∷ hs) bs e w room =
    let space : length bs + 1 ≤ l.max_keys = omega arith in
    let shorter = length-check l h.at h.key bs space in
    elim (Bool-cases (bucket_key h.key == k)) [
      | inl own ↦
          let same = (eq_iff (bucket_key h.key) k).0 own in
          let (first, opened) = check_first l h.at h.key bs space (rw same e) in
          let b : Bucket = record {
            key = bucket_key h.key;
            reset_at = h.at + l.window_ms;
            count = 1;
          } in
          ground (
            arith,
            first,
            live_quota l k hs (check l h.at h.key bs).1 b
                (subst (λ x. bucket_of x (check l h.at h.key bs).1 ≡ some b) same opened)
                (Within-Before begin l.window_ms h.at hs w.0.0 w.1) (omega arith),
          )
      | inr other ↦ ground (
        arith,
        window_quota l k begin hs (check l h.at h.key bs).1
            (check_other l h.at h.key bs space k other e) w.1 (omega arith),
      )
    ]
