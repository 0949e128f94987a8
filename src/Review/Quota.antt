-- ===== src/Review/Quota.antt =====
-- One prompt in eleven actions, over any number of them (apps/api/src/reviews.js).
use roadwisefleet.Prelude.{
  ℕ, suc, ◌+◌, ◌*◌, ◌≤◌, String, ◌≡◌, refl, inl, inr, false, List, [], ◌∷◌, length, ◌==◌, eq_iff,
  arith, Option-cases, Bool-cases,
}
use roadwisefleet.Review.Rules.{Party, Action, plan_review_prompts}
use roadwisefleet.Review.Requests.{ReviewsClient, action_of, record_completed_action}
use roadwisefleet.Review.Client.{IsReviewsClient}
use roadwisefleet.Review.Sampling.{asked, counter, weight, ask_all-weight}

-- A call of `recordCompletedAction`.
pub record Completed : Type 0 where
  pub action_id : String
  pub now : ℕ
  pub roll : ℕ → ℕ

-- Nobody is asked twice about one action: the two sides are of two types.
plan_review_prompts-asked : (a : Action) (q : Party) → asked q (plan_review_prompts a) ≤ 1
unfolding plan_review_prompts asked
plan_review_prompts-asked a q =
    let apart : ("org" == "customer") ≡ false = refl in
    ground (arith, apart, eq_iff "org" q.type, eq_iff "customer" q.type, eq_iff "org" "customer")

module _ {ℓ} {S : Type ℓ} (c : ReviewsClient S) (law : IsReviewsClient c) where
  record_weight :
      (a : Completed) (q : Party) (s : S)
      → weight c law q (record_completed_action c a.action_id a.now a.roll s).1
        ≤ weight c law q s + 1
  unfolding record_completed_action
  record_weight a q s = elim (Bool-cases (a.action_id == "")) [
    | inl blank ↦ rw blank (omega arith)
    | inr named ↦ elim (Option-cases (c.find_trip a.action_id s)) [
      | inl missing ↦ rw (named, missing) (omega arith)
      | inr (t, found) ↦
          rw (named, found)
            (within _ _ _
              (ask_all-weight c law a.now a.roll
                (plan_review_prompts (action_of a.action_id a.now t)) q s)
              (plan_review_prompts-asked (action_of a.action_id a.now t) q))
    ]
  ]
    where
      within : (m n k : ℕ) → m ≤ n + k → k ≤ 1 → m ≤ n + 1
      within m n k h b = omega (arith, h, b)

  -- The calls one after another.
  unfoldable pub record_all : List Completed → S → S
  record_all [] s = s
  record_all (a ∷ as') s = record_all as' (record_completed_action c a.action_id a.now a.roll s).1

  record_all-weight :
      (calls : List Completed) (q : Party) (s : S)
      → weight c law q (record_all calls s) ≤ weight c law q s + length calls
  unfolding record_all
  record_all-weight [] q s = omega arith
  record_all-weight (a ∷ calls) q s =
      more _ _ _ (length calls) (record_weight a q s)
        (record_all-weight calls q (record_completed_action c a.action_id a.now a.roll s).1)
    where
      more : (x y z n : ℕ) → y ≤ x + 1 → z ≤ y + n → z ≤ x + suc n
      more x y z n h k = omega (arith, h, k)

  -- However many actions are completed, in any order and with any luck, a participant that had
  -- neither prompts nor a counter before gets at most one prompt for eleven of them.
  pub record_all-quota :
      (calls : List Completed) (q : Party) (s : S)
      → law.prompts q s ≡ 0
      → counter c law q s ≡ 0
      → 11 * law.prompts q (record_all calls s) ≤ length calls
  record_all-quota calls q s p k =
      within (law.prompts q (record_all calls s)) (counter c law q (record_all calls s))
        (length calls) (record_all-weight calls q s) p k
    where
      within :
          (m n l : ℕ)
          → 11 * m + n ≤ 11 * law.prompts q s + counter c law q s + l
          → law.prompts q s ≡ 0
          → counter c law q s ≡ 0
          → 11 * m ≤ l
      within m n l h e f = omega (arith, h, e, f)
