-- ===== src/Tests/Reviews.antt =====
-- Examples on reviews.
use roadwisefleet.Prelude.{
  ◌*◌, ◌≤◌, String, ◌≡◌, refl, none, some, List, [], ◌∷◌, ◌==◌, if◌then◌else◌,
}
use roadwisefleet.Prelude.Text.{trim, trim_start, trim_end}
use roadwisefleet.Js.{plus, undefined, number, text, Fields}
use roadwisefleet.Review.Rules.{
  rating_of, comment_of, is_self_review, plan_review_prompts, sample_decision, Party, Prompt,
  ReviewRow, ReviewInput, normalize_review_input,
}
use roadwisefleet.Review.Requests.{
  record_completed_action, ask_all, TripInfo, already_reviewed, review_of, submit_review,
}
use roadwisefleet.Review.Quota.{Completed, record_all, record_all-quota}
use roadwisefleet.Review.Once.{submit_review-again}
use roadwisefleet.Review.Sampling.{asked}
use roadwisefleet.Review.Memory.{Store, store, store-IsReviewsClient, store-StampsPrompts}
use roadwisefleet.Tests.Data.{runtime}

abbrev delivery : TripInfo
delivery = record {
  org_id = some "o1";
  org_name = none;
  order = some (record {
    origin = some "A";
    destination = none;
    customer_id = some "c1";
    customer_name = none;
    customer_accounts = 1;
  });
}

abbrev carrier : Party
carrier = record { type = "org"; id = "o1" }

abbrev prompt : Prompt
prompt = record {
  action_id = "t1";
  rater = carrier;
  subject = record { type = "customer"; id = "c1" };
  action_ref = none;
  counterparty_name = none;
  disclose_at = 9;
}

abbrev start : Store
start = record {
  trips = λ x. some delivery;
  counters = λ q. none;
  made = [];
  rows = λ x.
      if x == "p1" then some (record { id = "p1"; prompt = prompt; submitted_at = none }) else none;
  reviews = [];
}

abbrev call : String → Completed
call id = record { action_id = id; now = 5; roll = λ n. 0 }

abbrev eleven : List Completed
eleven =
    call "a"
    ∷ call "b"
    ∷ call "c"
    ∷ call "d"
    ∷ call "e"
    ∷ call "f"
    ∷ call "g"
    ∷ call "h"
    ∷ call "i"
    ∷ call "j"
    ∷ call "k"
    ∷ []

record_all-quota_example :
    11 * asked carrier (record_all store store-IsReviewsClient eleven start).made ≤ 11
unfolding store-IsReviewsClient asked
record_all-quota_example =
    record_all-quota store store-IsReviewsClient eleven carrier start refl refl

asked_once : asked carrier (record_all store store-IsReviewsClient eleven start).made ≡ 1
unfolding asked record_all record_completed_action store ask_all plan_review_prompts sample_decision
asked_once = refl

abbrev body : Fields
body key =
    if key == "promptId"
    then text " p1 "
    else if key == "rating"
    then number (plus 4000000)
    else undefined

abbrev input : ReviewInput
input = record { prompt_id = "p1"; rating = 4; comment = none }

good : normalize_review_input runtime (some body) ≡ some input
unfolding normalize_review_input trim trim_start trim_end rating_of comment_of
good = refl

submit_review-again_example :
    submit_review store runtime carrier
      (some body)
      8
      (submit_review store runtime carrier (some body) 7 start).1
    ≡ (already_reviewed, (submit_review store runtime carrier (some body) 7 start).1)
unfolding submit_review normalize_review_input trim trim_start trim_end rating_of comment_of store
    is_self_review
submit_review-again_example =
    submit_review-again store store-StampsPrompts runtime carrier (some body) (some body) 7 8 start
      (review_of store (record { id = "p1"; prompt = prompt; submitted_at = none }) input) input
      input good good refl refl

abbrev four_stars : ReviewRow
four_stars = record { action_id = "t1"; rater_type = "org"; rating = 4; disclose_at = 9 }
