-- ===== src/Review/Requests.antt =====
-- The requests of apps/api/src/reviews.js: `recordCompletedAction`, `submitReview` and
-- `summarizeSubject`. The database client is a parameter.
use roadwisefleet.Prelude.{
  ℕ, suc, String, Bool, false, not, Option, none, some, List, [], ◌∷◌, ◌==◌, ltb, any, is_some,
  if◌then◌else◌,
}
use roadwisefleet.Js.{Fields, Runtime}
use roadwisefleet.Review.Rules.{
  below_cap, not_sampled, sampled, sample_decision, ReviewInput, normalize_review_input, Party,
  is_self_review, action_ref_for, Prompt, Action, plan_review_prompts, ReviewRow, Tally, tally,
}

-- A trip with its organisation and the customer of its order, as `recordCompletedAction` reads it.
pub record OrderInfo : Type 0 where
  pub origin : Option String
  pub destination : Option String
  pub customer_id : Option String
  pub customer_name : Option String
  pub customer_accounts : ℕ

pub record TripInfo : Type 0 where
  pub org_id : Option String
  pub org_name : Option String
  pub order : Option OrderInfo

-- A stored prompt.
pub record PromptRow : Type 0 where
  pub id : String
  pub prompt : Prompt
  pub submitted_at : Option ℕ

-- The `data` of a review.
pub record Review : Type 0 where
  pub action_id : String
  pub rater : Party
  pub subject : Party
  pub rating : ℕ
  pub comment : Option String
  pub disclose_at : ℕ

-- What a write gives: the state after it, a unique key that is taken, or another error.
pub data Written {ℓ} (S : Type ℓ) : Type ℓ where
  written : S → Written S
  duplicate broken : Written S

-- The calls of the client on its state.
pub record ReviewsClient {ℓ} (S : Type ℓ) : Type ℓ where
  -- `trip.findFirst` by id, with its relations
  pub find_trip : String → S → Option TripInfo
  -- `reviewSampling.upsert` with the counter to create and its increment: the new counter, and the
  -- state
  pub upsert_sampling : Party → ℕ → ℕ → S → ℕ × S
  pub create_prompt : Prompt → S → Written S
  -- `reviewSampling.update` with the counter and the instant to store
  pub update_sampling : Party → ℕ → ℕ → S → S
  -- `reviewPrompt.findFirst` by id and rater
  pub find_prompt : String → Party → S → Option PromptRow
  -- the transaction of a review and the stamp of its prompt
  pub submit : Review → String → ℕ → S → Written S
  -- the reviews of a subject, and the types of the raters of an action
  pub find_reviews : Party → S → List ReviewRow
  pub rater_types : String → S → List String

-- `planReviewPrompts` of what was read of the trip.
abbrev pub action_of : String → ℕ → TripInfo → Action
action_of id now t = elim t.order [
  | none ↦ record {
    action_id = id;
    org_id = t.org_id;
    customer_id = none;
    customer_has_login = false;
    now = now;
    action_ref = none;
    org_name = t.org_name;
    customer_name = none;
  }
  | some o ↦ record {
    action_id = id;
    org_id = t.org_id;
    customer_id = o.customer_id;
    customer_has_login = ltb 0 o.customer_accounts;
    now = now;
    action_ref = action_ref_for (some (o.origin, o.destination));
    org_name = t.org_name;
    customer_name = o.customer_name;
  }
]

-- `recordCompletedAction`: the errors, what it throws, and the prompts that were made.
pub data Recorded : Type 0 where
  invalid_action not_found thrown : Recorded
  prompted : List Prompt → Recorded

-- `submitReview`
pub data Submitted : Type 0 where
  invalid_input prompt_not_found already_reviewed self_review failed : Submitted
  submitted : Review → Submitted

abbrev pub also : Prompt → Recorded → Recorded
also p (prompted ps) = prompted (p ∷ ps)
also p r = r

abbrev pub also_first {ℓ} : {S : Type ℓ} → Prompt → Recorded × S → Recorded × S
also_first p (r, s) = (also p r, s)

module _ {ℓ} {S : Type ℓ} (c : ReviewsClient S) where
  -- `bumpSampling(prisma, participantType, participantId)`
  abbrev pub bump_sampling : Party → S → ℕ × S
  bump_sampling p s = c.upsert_sampling p 1 1 s

  -- The loop of `recordCompletedAction` over the planned prompts, with the rolls of the generator.
  unfoldable pub ask_all : ℕ → (ℕ → ℕ) → List Prompt → S → Recorded × S
  ask_all now roll [] s = (prompted [], s)
  ask_all now roll (p ∷ ps) s =
      let (count, s1) = bump_sampling p.rater s in
      elim (sample_decision count (roll 0)) [
        | below_cap ↦ ask_all now (λ n. roll (suc n)) ps s1
        | not_sampled ↦ ask_all now (λ n. roll (suc n)) ps s1
        | sampled ↦ elim (c.create_prompt p s1) [
          | written s2 ↦
              also_first p (ask_all now (λ n. roll (suc n)) ps (c.update_sampling p.rater 0 now s2))
          | duplicate ↦ ask_all now (λ n. roll (suc n)) ps s1
          | broken ↦ (thrown, s1)
        ]
      ]

  -- `recordCompletedAction(prisma, { actionId, now, rng })`
  unfoldable pub record_completed_action : String → ℕ → (ℕ → ℕ) → S → Recorded × S
  record_completed_action id now roll s =
      if id == "" then (invalid_action, s) else elim (c.find_trip id s) [
        | none ↦ (not_found, s)
        | some t ↦ ask_all now roll (plan_review_prompts (action_of id now t)) s
      ]

  -- The review of a prompt.
  abbrev pub review_of : PromptRow → ReviewInput → Review
  review_of row i = record {
    action_id = row.prompt.action_id;
    rater = row.prompt.rater;
    subject = row.prompt.subject;
    rating = i.rating;
    comment = i.comment;
    disclose_at = row.prompt.disclose_at;
  }

  -- `submitReview(prisma, { raterType, raterId, body, now })`
  unfoldable pub submit_review : Runtime → Party → Option Fields → ℕ → S → Submitted × S
  submit_review r rater body now s = elim (normalize_review_input r body) [
    | none ↦ (invalid_input, s)
    | some i ↦ elim (c.find_prompt i.prompt_id rater s) [
      | none ↦ (prompt_not_found, s)
      | some row ↦
          if is_some row.submitted_at
          then (already_reviewed, s)
          else if is_self_review row.prompt.rater row.prompt.subject
          then (self_review, s)
          else elim (c.submit (review_of row i) row.id now s) [
            | written s1 ↦ (submitted (review_of row i), s1)
            | duplicate ↦ (already_reviewed, s)
            | broken ↦ (failed, s)
          ]
    ]
  ]

  -- The actions that both sides reviewed: two types of raters at least.
  unfoldable pub both_sides : S → String → Bool
  both_sides s action = elim (c.rater_types action s) [
    | [] ↦ false
    | first ∷ others ↦ any (λ t. not (t == first)) others
  ]

  -- `summarizeSubject(prisma, { subjectType, subjectId, now })`, without the average
  unfoldable pub summarize_subject : Party → ℕ → S → Tally
  summarize_subject subject now s = tally (both_sides s) now (c.find_reviews subject s)
