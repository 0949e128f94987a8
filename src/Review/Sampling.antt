-- ===== src/Review/Sampling.antt =====
-- How often a participant is asked for a review (apps/api/src/reviews.js).
use roadwisefleet.Prelude.{
  ℕ, suc, ◌+◌, ◌*◌, ◌≤◌, ◌≡◌, refl, ap, ◌∙◌, ◌⊎◌, inl, inr, Bool, true, false, Option, none, some,
  List, [], ◌∷◌, eq_iff, arith, Bool-cases, if◌then◌else◌,
}
use roadwisefleet.Review.Rules.{
  Decision, below_cap, not_sampled, sampled, sample_decision, Party, Prompt,
}
use roadwisefleet.Review.Client.{is_party, upserted, value, IsReviewsClient}
use roadwisefleet.Review.Requests.{
  Written, written, duplicate, broken, ReviewsClient, bump_sampling, ask_all,
}

one_more : (o : Option ℕ) → upserted 1 1 o ≡ suc (value o)
one_more none = refl
one_more (some n) = omega arith

value-upserted :
    (b : Bool) (o : Option ℕ)
    → value (if b then some (upserted 1 1 o) else o) ≡ (if b then suc (value o) else value o)
value-upserted true o = one_more o
value-upserted false o = refl

value-zero :
    (b : Bool) (o : Option ℕ) → value (if b then some 0 else o) ≡ (if b then 0 else value o)
value-zero true o = refl
value-zero false o = refl

party_eq : (p q : Party) → is_party p q ≡ true → p ≡ q
party_eq p q h =
    let e : p.type ≡ q.type = (eq_iff p.type q.type).0 (ground arith) in
    let f : p.id ≡ q.id = (eq_iff p.id q.id).0 (ground arith) in
    λ i. record { type = e i; id = f i }

Decision-cases : (d : Decision) → (d ≡ below_cap) ⊎ (d ≡ not_sampled) ⊎ (d ≡ sampled)
Decision-cases below_cap = inl refl
Decision-cases not_sampled = inr (inl refl)
Decision-cases sampled = inr (inr refl)

pub Written-cases {ℓ} :
    {S : Type ℓ} (w : Written S) → ((t : S) × (w ≡ written t)) ⊎ (w ≡ duplicate) ⊎ (w ≡ broken)
Written-cases (written t) = inl (t, refl)
Written-cases duplicate = inr (inl refl)
Written-cases broken = inr (inr refl)

-- How often a participant stands in a list of prompts.
unfoldable pub asked : Party → List Prompt → ℕ
asked q [] = 0
asked q (p ∷ ps) = (if is_party p.rater q then 1 else 0) + asked q ps

sampled_above : (count roll : ℕ) → sample_decision count roll ≡ sampled → 11 ≤ count
unfolding sample_decision
sampled_above count roll e = ground arith

spent : (a b k m n : ℕ) → b ≤ a + k → m ≤ b + n → m ≤ a + (k + n)
spent a b k m n e h = omega arith

module _ {ℓ} {S : Type ℓ} (c : ReviewsClient S) (law : IsReviewsClient c) where
  -- The counter of a participant, 0 where there is none.
  abbrev pub counter : Party → S → ℕ
  counter q s = value (law.stored q s)

  bump_count : (p : Party) (s : S) → (bump_sampling c p s).0 ≡ suc (counter p s)
  bump_count p s = law.upsert_count p 1 1 s ∙ one_more (law.stored p s)

  bump_counter :
      (p q : Party) (s : S)
      → counter q (bump_sampling c p s).1
        ≡ (if is_party p q then suc (counter q s) else counter q s)
  bump_counter p q s =
      ap value (law.upsert_stored p q 1 1 s) ∙ value-upserted (is_party p q) (law.stored q s)

  reset_counter :
      (p q : Party) (now : ℕ) (s : S)
      → counter q (c.update_sampling p 0 now s) ≡ (if is_party p q then 0 else counter q s)
  reset_counter p q now s =
      ap value (law.update_stored p q 0 now s) ∙ value-zero (is_party p q) (law.stored q s)

  -- Eleven for each prompt, and the counter.
  abbrev pub weight : Party → S → ℕ
  weight q s = 11 * law.prompts q s + counter q s

  bump_weight :
      (p : Party) (q : Party) (s : S)
      → weight q (bump_sampling c p s).1 ≡ weight q s + (if is_party p q then 1 else 0)
  bump_weight p q s = ground (arith, bump_counter p q s, law.upsert_prompts p q 1 1 s)

  -- A prompt is paid for by the counter.
  prompt_weight :
      (a : Prompt) (q : Party) (now roll : ℕ) (s t : S)
      → sample_decision (bump_sampling c a.rater s).0 roll ≡ sampled
      → c.create_prompt a (bump_sampling c a.rater s).1 ≡ written t
      → weight q (c.update_sampling a.rater 0 now t)
        ≤ weight q s + (if is_party a.rater q then 1 else 0)
  prompt_weight a q now roll s t d e =
      let many : 11 ≤ suc (counter a.rater s) =
        ap_le (bump_count a.rater s) (sampled_above (bump_sampling c a.rater s).0 roll d) in
      let s1 = (bump_sampling c a.rater s).1 in
      let b = bump_counter a.rater q s in
      let b' = law.upsert_prompts a.rater q 1 1 s in
      let p = ap value (law.create_stored a q s1 t e) in
      let p' = law.create_prompts a q s1 t e in
      let r = reset_counter a.rater q now t in
      let r' = law.update_prompts a.rater q 0 now t in
      elim (Bool-cases (is_party a.rater q)) [
        | inl same ↦
            let owner : counter a.rater s ≡ counter q s =
              ap (λ z. counter z s) (party_eq a.rater q same) in
            ground (arith, same, many, owner, b, b', p, p', r, r')
        | inr apart ↦ ground (arith, apart, b, b', p, p', r, r')
      ]
    where
      ap_le : {m n : ℕ} → m ≡ n → 11 ≤ m → 11 ≤ n
      ap_le e h = omega (arith, e, h)

  module _ (now : ℕ) (roll : ℕ → ℕ) (p : Prompt) (ps : List Prompt) (s : S) where
    abbrev bumped : S
    bumped = (bump_sampling c p.rater s).1

    abbrev decision : Decision
    decision = sample_decision (bump_sampling c p.rater s).0 (roll 0)

    -- What becomes of the first prompt: nothing, a new prompt, or an error.
    ask_all_passed :
        (decision ≡ sampled → c.create_prompt p bumped ≡ duplicate)
        → ask_all c now roll (p ∷ ps) s ≡ ask_all c now (λ n. roll (suc n)) ps bumped
    unfolding ask_all
    ask_all_passed h = elim (Decision-cases decision) [
      | inl low ↦ ground (arith, low)
      | inr (inl unlucky) ↦ ground (arith, unlucky)
      | inr (inr drawn) ↦ ground (arith, drawn, h drawn)
    ]

    ask_all_made :
        (t : S)
        → decision ≡ sampled
        → c.create_prompt p bumped ≡ written t
        → (ask_all c now roll (p ∷ ps) s).1
          ≡ (ask_all c now (λ n. roll (suc n)) ps (c.update_sampling p.rater 0 now t)).1
    unfolding ask_all
    ask_all_made t e f = ground (arith, e, f)

    ask_all_broken :
        decision ≡ sampled
        → c.create_prompt p bumped ≡ broken
        → (ask_all c now roll (p ∷ ps) s).1 ≡ bumped
    unfolding ask_all
    ask_all_broken e f = ground (arith, e, f)

  ask_all_none : (now : ℕ) (roll : ℕ → ℕ) (s : S) → (ask_all c now roll [] s).1 ≡ s
  unfolding ask_all
  ask_all_none now roll s = refl

  -- The bounds of the rest, after a step that weighs no more than its prompt.
  step-weight :
      (p : Prompt) (q : Party) (s s1 : S) (m n : ℕ)
      → weight q s1 ≤ weight q s + (if is_party p.rater q then 1 else 0)
      → m ≤ weight q s1 + n
      → m ≤ weight q s + ((if is_party p.rater q then 1 else 0) + n)
  step-weight p q s s1 m n =
      spent (weight q s) (weight q s1) (if is_party p.rater q then 1 else 0) m n

  bump_bound :
      (p : Party) (q : Party) (s : S)
      → weight q (bump_sampling c p s).1 ≤ weight q s + (if is_party p q then 1 else 0)
  bump_bound p q s = omega (arith, bump_weight p q s)

  pub ask_all-weight :
      (now : ℕ) (roll : ℕ → ℕ) (ps : List Prompt) (q : Party) (s : S)
      → weight q (ask_all c now roll ps s).1 ≤ weight q s + asked q ps
  unfolding asked
  ask_all-weight now roll [] q s =
      let e = ap (weight q) (ask_all_none now roll s) in omega (arith, e)
  ask_all-weight now roll (p ∷ ps) q s =
      let s1 = (bump_sampling c p.rater s).1 in
      let rest = ask_all-weight now (λ n. roll (suc n)) ps q in
      elim (Decision-cases (sample_decision (bump_sampling c p.rater s).0 (roll 0))) [
        | inl low ↦
            let e =
              ap (λ z. weight q z.1)
                (ask_all_passed now roll p ps s (λ z. absurd (ground (arith, low, z)))) in
            step-weight p q s s1 _ (asked q ps) (bump_bound p.rater q s) (omega (arith, e, rest s1))
        | inr (inl unlucky) ↦
            let e =
              ap (λ z. weight q z.1)
                (ask_all_passed now roll p ps s (λ z. absurd (ground (arith, unlucky, z)))) in
            step-weight p q s s1 _ (asked q ps) (bump_bound p.rater q s) (omega (arith, e, rest s1))
        | inr (inr drawn) ↦ elim (Written-cases (c.create_prompt p s1)) [
          | inl (t, made) ↦
              let e = ap (weight q) (ask_all_made now roll p ps s t drawn made) in
              step-weight p q s (c.update_sampling p.rater 0 now t) _ (asked q ps)
                (prompt_weight p q now (roll 0) s t drawn made)
                (omega (arith, e, rest (c.update_sampling p.rater 0 now t)))
          | inr (inl twice) ↦
              let e = ap (λ z. weight q z.1) (ask_all_passed now roll p ps s (λ z. twice)) in
              step-weight p q s s1 _ (asked q ps) (bump_bound p.rater q s)
                (omega (arith, e, rest s1))
          | inr (inr error) ↦
              let e = ap (weight q) (ask_all_broken now roll p ps s drawn error) in
              step-weight p q s s1 _ (asked q ps) (bump_bound p.rater q s) (omega (arith, e))
        ]
      ]
