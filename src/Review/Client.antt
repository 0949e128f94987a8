-- ===== src/Review/Client.antt =====
-- What sampling relies on in the client of the database (apps/api/src/reviews.js).
use roadwisefleet.Prelude.{ℕ, ◌+◌, ◌≡◌, Bool, ◌&&◌, Option, none, some, ◌==◌, if◌then◌else◌}
use roadwisefleet.Review.Rules.{Party, Prompt}
use roadwisefleet.Review.Requests.{written, ReviewsClient}

abbrev pub is_party : Party → Party → Bool
is_party p q = p.type == q.type && p.id == q.id

-- A counter after an upsert, and its value where no row is the same as 0.
abbrev pub upserted : ℕ → ℕ → Option ℕ → ℕ
upserted m k none = m
upserted m k (some n) = n + k

abbrev pub value : Option ℕ → ℕ
value none = 0
value (some n) = n

-- The documented behaviour of the client that sampling relies on, seen through the counter stored
-- for a participant and the number of its prompts: the upsert creates the row or increments it, and
-- gives the counter; a new prompt is one more of its rater's; and the update stores the counter. The
-- upsert and the update are taken not to fail.
pub record IsReviewsClient {ℓ} {S : Type ℓ} (c : ReviewsClient S) : Type ℓ where
  pub stored : Party → S → Option ℕ
  pub prompts : Party → S → ℕ
  pub upsert_count :
      (p : Party) (m k : ℕ) (s : S) → (c.upsert_sampling p m k s).0 ≡ upserted m k (stored p s)
  pub upsert_stored :
      (p q : Party) (m k : ℕ) (s : S)
      → stored q (c.upsert_sampling p m k s).1
        ≡ (if is_party p q then some (upserted m k (stored q s)) else stored q s)
  pub upsert_prompts :
      (p q : Party) (m k : ℕ) (s : S) → prompts q (c.upsert_sampling p m k s).1 ≡ prompts q s
  pub create_stored :
      (a : Prompt) (q : Party) (s t : S) → c.create_prompt a s ≡ written t → stored q t ≡ stored q s
  pub create_prompts :
      (a : Prompt) (q : Party) (s t : S)
      → c.create_prompt a s ≡ written t
      → prompts q t ≡ prompts q s + (if is_party a.rater q then 1 else 0)
  pub update_stored :
      (p q : Party) (n at : ℕ) (s : S)
      → stored q (c.update_sampling p n at s) ≡ (if is_party p q then some n else stored q s)
  pub update_prompts :
      (p q : Party) (n at : ℕ) (s : S) → prompts q (c.update_sampling p n at s) ≡ prompts q s
