-- ===== src/Review/Rules.antt =====
-- The rules of reviews: the pure functions of apps/api/src/reviews.js. A roll of the random
-- generator counts millionths, rounded down; instants are in milliseconds.
use Prim.Native.String.{◌++◌}
use roadwisefleet.Prelude.{
  ℕ, ◌+◌, ◌*◌, ◌/◌, String, Bool, false, not, ◌&&◌, ◌||◌, Option, none, some, List, [], ◌∷◌, ◌==◌,
  eqb, ltb, leb, is_some, if◌then◌else◌,
}
use roadwisefleet.Prelude.Text.{trim}
use roadwisefleet.Js.{plus, Value, undefined, null, number, text, Fields, Runtime, million}
use roadwisefleet.Gps.Points.{utf16_length}

abbrev pub review_min_actions : ℕ
review_min_actions = 10

-- A quarter, in millionths.
abbrev pub review_sample_probability : ℕ
review_sample_probability = 250000

abbrev pub review_disclose_ms : ℕ
review_disclose_ms = 14 * 24 * 60 * 60 * 1000

abbrev pub max_comment_length : ℕ
max_comment_length = 1000

-- `isValidRating(value)`: the rating, where it is one
unfoldable pub rating_of : Value → Option ℕ
rating_of (number (plus n)) =
    if eqb (n / million * million) n && leb 1 (n / million) && leb (n / million) 5
    then some (n / million)
    else none
rating_of _ = none

unfoldable pub is_valid_rating : Value → Bool
is_valid_rating v = is_some (rating_of v)

-- `isSubjectType(value)`
unfoldable pub is_subject_type : Value → Bool
is_subject_type (text s) = s == "org" || s == "customer"
is_subject_type _ = false

pub data Decision : Type 0 where
  below_cap not_sampled sampled : Decision

-- `sampleDecision({ actionsSinceLastPrompt, rng })`
unfoldable pub sample_decision : ℕ → ℕ → Decision
sample_decision count roll =
    if leb count review_min_actions
    then below_cap
    else if not (ltb roll review_sample_probability)
    then not_sampled
    else sampled

-- The value of `normalizeReviewInput`.
pub record ReviewInput : Type 0 where
  pub prompt_id : String
  pub rating : ℕ
  pub comment : Option String

-- `typeof b.promptId === 'string' ? b.promptId.trim() : ''`
abbrev pub prompt_id_of : Value → String
prompt_id_of (text s) = trim s
prompt_id_of _ = ""

-- `typeof b.rating === 'string' ? Number(b.rating) : b.rating`
abbrev pub rating_value : Runtime → Value → Value
rating_value r (text s) = number (r.to_number (text s))
rating_value r v = v

-- The comment: `none` where it is refused.
unfoldable pub comment_of : Value → Option (Option String)
comment_of (text s) =
    if s == ""
    then some none
    else if ltb max_comment_length (utf16_length (trim s))
    then none
    else if trim s == ""
    then some none
    else some (some (trim s))
comment_of undefined = some none
comment_of null = some none
comment_of _ = none

-- `normalizeReviewInput(body)`: `none` is `invalid_input`
unfoldable pub normalize_review_input : Runtime → Option Fields → Option ReviewInput
normalize_review_input r none = none
normalize_review_input r (some b) =
    if prompt_id_of (b "promptId") == ""
    then none
    else elim (rating_of (rating_value r (b "rating"))) [
      | none ↦ none
      | some rating ↦ elim (comment_of (b "comment")) [
        | none ↦ none
        | some comment ↦
            some (record {
              prompt_id = prompt_id_of (b "promptId");
              rating = rating;
              comment = comment;
            })
      ]
    ]

-- A participant: its type, `org` or `customer`, and its id.
pub record Party : Type 0 where
  pub type : String
  pub id : String

-- `isSelfReview(raterType, raterId, subjectType, subjectId)`
unfoldable pub is_self_review : Party → Party → Bool
is_self_review a b = a.type == b.type && a.id == b.id

-- `disclosureDate(now)`
unfoldable pub disclosure_date : ℕ → ℕ
disclosure_date now = now + review_disclose_ms

-- `actionRefFor(order)`, of its two places
abbrev pub or_empty : Option String → String
or_empty none = ""
or_empty (some s) = s

unfoldable pub action_ref_for : Option (Option String × Option String) → Option String
action_ref_for none = none
action_ref_for (some (origin, destination)) =
    if or_empty origin == "" && or_empty destination == ""
    then none
    else some (trim (or_empty origin ++ (" → " ++ or_empty destination)))

-- What a prompt asks, as it is stored; the type of the action is always a delivery.
pub record Prompt : Type 0 where
  pub action_id : String
  pub rater : Party
  pub subject : Party
  pub action_ref : Option String
  pub counterparty_name : Option String
  pub disclose_at : ℕ

-- A completed action: the trip, its organisation, and the customer of its order.
pub record Action : Type 0 where
  pub action_id : String
  pub org_id : Option String
  pub customer_id : Option String
  pub customer_has_login : Bool
  pub now : ℕ
  pub action_ref : Option String
  pub org_name : Option String
  pub customer_name : Option String

-- A string as a condition.
abbrev pub given_text : Option String → Option String
given_text none = none
given_text (some s) = if s == "" then none else some s

abbrev pub customer_prompt : Action → String → String → Prompt
customer_prompt a org customer = record {
  action_id = a.action_id;
  rater = record { type = "customer"; id = customer };
  subject = record { type = "org"; id = org };
  action_ref = a.action_ref;
  counterparty_name = a.org_name;
  disclose_at = disclosure_date a.now;
}

abbrev pub org_prompt : Action → String → String → Prompt
org_prompt a org customer = record {
  action_id = a.action_id;
  rater = record { type = "org"; id = org };
  subject = record { type = "customer"; id = customer };
  action_ref = a.action_ref;
  counterparty_name = a.customer_name;
  disclose_at = disclosure_date a.now;
}

-- `planReviewPrompts(input)`
unfoldable pub plan_review_prompts : Action → List Prompt
plan_review_prompts a = if a.action_id == "" then [] else elim (given_text a.org_id) [
  | none ↦ []
  | some org ↦ elim (given_text a.customer_id) [
    | none ↦ []
    | some customer ↦
        if a.customer_has_login
        then customer_prompt a org customer ∷ org_prompt a org customer ∷ []
        else org_prompt a org customer ∷ []
  ]
]

-- A stored review, with the columns that the summary reads.
pub record ReviewRow : Type 0 where
  pub action_id : String
  pub rater_type : String
  pub rating : ℕ
  pub disclose_at : ℕ

-- `isRevealed(review, { bothSides, now })`
unfoldable pub is_revealed : (String → Bool) → ℕ → ReviewRow → Bool
is_revealed both_sides now r = both_sides r.action_id || leb r.disclose_at now

-- What `summarize` counts, before the average of the sum is rounded.
pub record Tally : Type 0 where
  pub count : ℕ
  pub sum : ℕ
  pub pending : ℕ

-- The loop of `summarize(reviews, ctx)`
unfoldable pub tally : (String → Bool) → ℕ → List ReviewRow → Tally
tally both now [] = record { count = 0; sum = 0; pending = 0 }
tally both now (r ∷ rs) =
    let t = tally both now rs in
    if is_revealed both now r
    then record t { count = t.count + 1; sum = t.sum + r.rating }
    else record t { pending = t.pending + 1 }
