-- ===== src/Review/Memory.antt =====
-- A client of the database with the laws of one, which the examples run with.
use roadwisefleet.Prelude.{
  ℕ, String, ◌≡◌, refl, sym, ap, ◌∙◌, inl, inr, Bool, ◌&&◌, Option, none, some, List, ◌∷◌, map, any,
  filter, ◌==◌, eq_iff, eq_refl, arith, Bool-cases, if◌then◌else◌,
}
use roadwisefleet.Review.Rules.{Party, Prompt, ReviewRow}
use roadwisefleet.Review.Requests.{TripInfo, PromptRow, Review, written, duplicate, ReviewsClient}
use roadwisefleet.Review.Client.{is_party, upserted, IsReviewsClient}
use roadwisefleet.Review.Sampling.{asked}
use roadwisefleet.Review.Once.{StampsPrompts}

-- Trips and stored prompts by their ids, the counters, the prompts that were made, and the reviews.
pub record Store : Type 0 where
  pub trips : String → Option TripInfo
  pub counters : Party → Option ℕ
  pub made : List Prompt
  pub rows : String → Option PromptRow
  pub reviews : List Review

abbrev same_key : Prompt → Prompt → Bool
same_key a b = a.action_id == b.action_id && is_party a.rater b.rater

abbrev row_of : Review → ReviewRow
row_of r = record {
  action_id = r.action_id;
  rater_type = r.rater.type;
  rating = r.rating;
  disclose_at = r.disclose_at;
}

abbrev stamp : ℕ → Option PromptRow → Option PromptRow
stamp now none = none
stamp now (some row) = some (record row { submitted_at = some now })

abbrev pick : String → Party → Option PromptRow → Option PromptRow
pick id p none = none
pick id p (some row) = if row.id == id && is_party row.prompt.rater p then some row else none

unfoldable pub store : ReviewsClient Store
unfolding any filter
store = record {
  find_trip = λ id s. s.trips id;
  upsert_sampling = λ p m k s. (
    upserted m k (s.counters p),
    record s {
      counters = λ q. if is_party p q then some (upserted m k (s.counters q)) else s.counters q;
    },
  );
  create_prompt = λ a s.
      if any (same_key a) s.made then duplicate else written (record s { made = a ∷ s.made });
  update_sampling =
      λ p n at s. record s { counters = λ q. if is_party p q then some n else s.counters q };
  find_prompt = λ id p s. pick id p (s.rows id);
  submit = λ r id now s. written (record s {
    rows = λ x. if x == id then stamp now (s.rows x) else s.rows x;
    reviews = r ∷ s.reviews;
  });
  find_reviews = λ p s. map row_of (filter (λ r. is_party r.subject p) s.reviews);
  rater_types =
      λ a s. map (λ (r : Review). r.rater.type) (filter (λ r. r.action_id == a) s.reviews);
}

pub created :
    (a : Prompt) (s t : Store)
    → store.create_prompt a s ≡ written t
    → (t.made ≡ a ∷ s.made) × (t.counters ≡ s.counters)
unfolding store
created a s t e = elim (Bool-cases (any (same_key a) s.made)) [
  | inl there ↦ absurd (ground (arith, there, e))
  | inr fresh ↦
      let here : record s { made = a ∷ s.made } ≡ t = ground (arith, fresh, e) in
      (sym (ap (λ (z : Store). z.made) here), sym (ap (λ (z : Store). z.counters) here))
]

unfoldable pub store-IsReviewsClient : IsReviewsClient store
unfolding store asked
store-IsReviewsClient = record {
  stored = λ q s. s.counters q;
  prompts = λ q s. asked q s.made;
  upsert_count = λ p m k s. refl;
  upsert_stored = λ p q m k s. refl;
  upsert_prompts = λ p q m k s. refl;
  create_stored = λ a q s t e. ap (λ z. z q) (created a s t e).1;
  create_prompts = λ a q s t e. ap (asked q) (created a s t e).0 ∙ omega arith;
  update_stored = λ p q n at s. refl;
  update_prompts = λ p q n at s. refl;
}

pick_id :
    (id : String) (p : Party) (o : Option PromptRow) (row : PromptRow)
    → pick id p o ≡ some row
    → row.id ≡ id
pick_id id p none row e = absurd (ground (arith, e))
pick_id id p (some r) row e = ground (arith, e, eq_iff r.id id)

pick_stamped :
    (id : String) (p : Party) (now : ℕ) (o : Option PromptRow) (row : PromptRow)
    → pick id p o ≡ some row
    → pick id p (stamp now o) ≡ some (record row { submitted_at = some now })
pick_stamped id p now none row e = absurd (ground (arith, e))
pick_stamped id p now (some r) row e = ground (arith, e)

stamped_row :
    (r : Review) (id : String) (now : ℕ) (s t : Store)
    → store.submit r id now s ≡ written t
    → t.rows id ≡ stamp now (s.rows id)
unfolding store
stamped_row r id now s t w =
    let here : record s {
      rows = λ x. if x == id then stamp now (s.rows x) else s.rows x;
      reviews = r ∷ s.reviews;
    }
        ≡ t =
      ground (arith, w) in
    sym (ap (λ (z : Store). z.rows id) here) ∙ rw (eq_refl id) refl

pub store-StampsPrompts : StampsPrompts store
unfolding store
store-StampsPrompts = record {
  find_id = λ id p s row e. pick_id id p (s.rows id) row e;
  submit_stamps = λ r id now p s t row e w.
      ap (pick id p) (stamped_row r id now s t w) ∙ pick_stamped id p now (s.rows id) row e;
}
