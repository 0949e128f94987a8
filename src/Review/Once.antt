-- ===== src/Review/Once.antt =====
-- What becomes of a review that was submitted, and what a summary counts (apps/api/src/reviews.js).
use mathlib.Core.Path.{subst}
use roadwisefleet.Prelude.{
  ℕ, ◌+◌, ◌*◌, ◌≤◌, String, ◌≡◌, refl, sym, ap, ◌∙◌, inl, inr, Bool, true, Option, some, List, [],
  ◌∷◌, length, All, is_some, arith, Option-cases, Bool-cases,
}
use roadwisefleet.Js.{Fields, Runtime}
use roadwisefleet.Review.Rules.{
  ReviewInput, normalize_review_input, Party, is_self_review, ReviewRow, tally, is_revealed,
}
use roadwisefleet.Review.Sampling.{Written-cases}
use roadwisefleet.Review.Requests.{
  PromptRow, Review, written, ReviewsClient, submitted, already_reviewed, review_of, submit_review,
}

-- The documented behaviour of the client that a review relies on: the transaction stamps the row of
-- its id, and a row is found by its id.
pub record StampsPrompts {ℓ} {S : Type ℓ} (c : ReviewsClient S) : Type ℓ where
  pub find_id :
      (id : String) (p : Party) (s : S) (row : PromptRow)
      → c.find_prompt id p s ≡ some row
      → row.id ≡ id
  pub submit_stamps :
      (r : Review) (id : String) (now : ℕ) (p : Party) (s t : S) (row : PromptRow)
      → c.find_prompt id p s ≡ some row
      → c.submit r id now s ≡ written t
      → c.find_prompt id p t ≡ some (record row { submitted_at = some now })

module _ {ℓ} {S : Type ℓ} (c : ReviewsClient S) (law : StampsPrompts c) (r : Runtime) where
  submit_review_row :
      (rater : Party) (body : Option Fields) (now : ℕ) (s : S) (v : Review) (i : ReviewInput)
      → normalize_review_input r body ≡ some i
      → (submit_review c r rater body now s).0 ≡ submitted v
      → (row : PromptRow) × (t : S) × (c.find_prompt i.prompt_id rater s ≡ some row)
        × (c.submit (review_of c row i) row.id now s ≡ written t)
        × ((submit_review c r rater body now s).1 ≡ t)
  unfolding submit_review
  submit_review_row rater body now s v i n e =
      elim (Option-cases (c.find_prompt i.prompt_id rater s)) [
        | inl missing ↦ absurd (ground (arith, n, missing, e))
        | inr (row, found) ↦ elim (Bool-cases (is_some row.submitted_at)) [
          | inl done ↦ absurd (ground (arith, n, found, done, e))
          | inr fresh ↦ elim (Bool-cases (is_self_review row.prompt.rater row.prompt.subject)) [
            | inl own ↦ absurd (ground (arith, n, found, fresh, own, e))
            | inr other ↦ elim (Written-cases (c.submit (review_of c row i) row.id now s)) [
              | inl (t, w) ↦ (row, t, found, w, ground (arith, n, found, fresh, other, w))
              | inr (inl twice) ↦ absurd (ground (arith, n, found, fresh, other, twice, e))
              | inr (inr error) ↦ absurd (ground (arith, n, found, fresh, other, error, e))
            ]
          ]
        ]
      ]

  submit_review_done :
      (rater : Party) (body : Option Fields) (now : ℕ) (s : S) (i : ReviewInput) (row : PromptRow)
      → normalize_review_input r body ≡ some i
      → c.find_prompt i.prompt_id rater s ≡ some row
      → is_some row.submitted_at ≡ true
      → submit_review c r rater body now s ≡ (already_reviewed, s)
  unfolding submit_review
  submit_review_done rater body now s i row n f d = ground (arith, n, f, d)

  -- A review is final: where one was submitted for a prompt, a second one by the same participant
  -- for that prompt, at any time, is refused as already there and changes nothing, whatever it says.
  pub submit_review-again :
      (rater : Party) (body body' : Option Fields) (now later : ℕ) (s : S) (v : Review)
      (i i' : ReviewInput)
      → normalize_review_input r body ≡ some i
      → normalize_review_input r body' ≡ some i'
      → i'.prompt_id ≡ i.prompt_id
      → (submit_review c r rater body now s).0 ≡ submitted v
      → let t = (submit_review c r rater body now s).1 in
        submit_review c r rater body' later t ≡ (already_reviewed, t)
  submit_review-again rater body body' now later s v i i' n n' same e =
      let (row, t, found, w, state) = submit_review_row rater body now s v i n e in
      let w' : c.submit (review_of c row i) i.prompt_id now s ≡ written t =
        ap (λ z. c.submit (review_of c row i) z now s)
          (sym (law.find_id i.prompt_id rater s row found))
        ∙ w in
      let stamped : c.find_prompt i'.prompt_id rater t
          ≡ some (record row { submitted_at = some now }) =
        ap (λ z. c.find_prompt z rater t) same
        ∙ law.submit_stamps (review_of c row i) i.prompt_id now rater s t row found w' in
      subst (λ z. submit_review c r rater body' later z ≡ (already_reviewed, z)) (sym state)
        (submit_review_done rater body' later t i' (record row { submitted_at = some now }) n'
          stamped refl)

-- A review that is visible stays visible, as time goes on and more actions have both reviews.
is_revealed-later :
    (both more : String → Bool) (now later : ℕ) (r : ReviewRow)
    → ((a : String) → both a ≡ true → more a ≡ true)
    → now ≤ later
    → is_revealed both now r ≡ true
    → is_revealed more later r ≡ true
unfolding is_revealed
is_revealed-later both more now later r h t e = ground (arith, h r.action_id)

abbrev pub IsRated : ReviewRow → Type 0
IsRated r = (1 ≤ r.rating) × (r.rating ≤ 5)

-- Each review of a subject is either counted or pending, and where the ratings go from 1 to 5 so
-- does what the counted ones amount to on average: their sum is at least their number and at most
-- five times it.
pub tally-bounds :
    (both : String → Bool) (now : ℕ) (rs : List ReviewRow)
    → All IsRated rs
    → ((tally both now rs).count + (tally both now rs).pending ≡ length rs)
      × ((tally both now rs).count ≤ (tally both now rs).sum)
      × ((tally both now rs).sum ≤ 5 * (tally both now rs).count)
unfolding tally
tally-bounds both now [] h = (omega arith, omega arith, omega arith)
tally-bounds both now (r ∷ rs) (a, b) =
    let (e, f, g) = tally-bounds both now rs b in ground (arith, e, f, g, a.0, a.1)
