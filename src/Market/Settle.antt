-- ===== src/Market/Settle.antt =====
-- What an award leaves of a load's offers (apps/api/src/marketplace.js).
use mathlib.Core.List.{Memᴰ}
use mathlib.Core.Path.{subst}
use roadwisefleet.Prelude.{
  ℕ, String, ◌≡◌, ◌≢◌, refl, sym, ap, ◌∙◌, inl, inr, true, false, some, List, [], ◌∷◌, map, ◌==◌,
  eq_iff, filter, find, any, All, arith, Bool-cases, Option-cases,
}
use roadwisefleet.Market.States.{
  awarded, accepted, declined, Load, Offer, is_load_open, is_offer_open, is_expired, load_move,
  offer_move,
}
use roadwisefleet.Market.Award.{Plan, plan, is_rival, pick_winner, award_plan, settle_offer}

unfoldable pub rival_ids : String → List Offer → List String
rival_ids w os = map (λ (o : Offer). o.id) (filter (is_rival w) os)

-- What `pick_winner` has checked when it answers with a plan.
pub record IsPicked (os : List Offer) (offer_id : String) (now : ℕ) (p : Plan) : Type 0 where
  pub winner : Offer
  pub found_it : find (λ o. o.id == offer_id) os ≡ some winner
  pub open_yet : is_offer_open winner.status ≡ true
  pub in_time : is_expired winner.expires_at now ≡ false
  pub winner_is : p.winner_id ≡ winner.id
  pub declines : p.declined_ids ≡ rival_ids winner.id os

pub pick_winner-IsPicked :
    (os : List Offer) (offer_id : String) (now : ℕ) (p : Plan)
    → pick_winner os offer_id now ≡ plan p
    → IsPicked os offer_id now p
unfolding pick_winner rival_ids
pick_winner-IsPicked os offer_id now p h = elim (Option-cases (find (λ o. o.id == offer_id) os)) [
  | inl missing ↦ absurd (ground (arith, missing))
  | inr (w, hit) ↦ record {
    winner = w;
    found_it = hit;
    open_yet = ground (arith, h, hit);
    in_time = ground (arith, h, hit);
    winner_is = ground (arith, h, hit);
    declines = ground (arith, h, hit);
  }
]

-- What an award's transaction leaves of an offer: the winner is accepted, every other offer that
-- was open is declined, and no other one is opened.
pub data IsSettled (p : Plan) (now : ℕ) (o : Offer) : Type 0 where
  wins : o.id ≡ p.winner_id → (settle_offer p now o).status ≡ accepted → IsSettled p now o
  loses :
      o.id ≢ p.winner_id
      → is_offer_open o.status ≡ true
      → (settle_offer p now o).status ≡ declined
      → IsSettled p now o
  was_closed :
      o.id ≢ p.winner_id
      → is_offer_open o.status ≡ false
      → is_offer_open (settle_offer p now o).status ≡ false
      → IsSettled p now o

winner_stays :
    (w : String) (os : List Offer) (i : String) → i ≡ w → any (λ j. j == i) (rival_ids w os) ≡ false
unfolding rival_ids filter any is_rival
winner_stays w [] i e = refl
winner_stays w (o ∷ os) i e = ground (arith, winner_stays w os i e, eq_iff o.id w, eq_iff o.id i)

rival_goes :
    (w : String) (os : List Offer) (o : Offer)
    → Memᴰ o os
    → is_rival w o ≡ true
    → any (λ j. j == o.id) (rival_ids w os) ≡ true
unfolding rival_ids filter any
rival_goes w [] o m h = elim m [ ]
rival_goes w (x ∷ os) o (Memᴰ.head e) h =
    let k : is_rival w x ≡ true = subst (λ z. is_rival w z ≡ true) e h in
    ground (arith, k, ap (λ (z : Offer). z.id) e, eq_iff x.id o.id)
rival_goes w (x ∷ os) o (Memᴰ.tail m) h = ground (arith, rival_goes w os o m h)

settle_offer-IsSettled :
    (p : Plan) (now : ℕ) (os : List Offer)
    → p.declined_ids ≡ rival_ids p.winner_id os
    → (o : Offer) → Memᴰ o os
    → IsSettled p now o
unfolding settle_offer is_rival is_offer_open
settle_offer-IsSettled p now os e o m =
    let stays : o.id ≡ p.winner_id → any (λ j. j == o.id) p.declined_ids ≡ false =
      λ same. ap (any (λ j. j == o.id)) e ∙ winner_stays p.winner_id os o.id same in
    let goes : is_rival p.winner_id o ≡ true → any (λ j. j == o.id) p.declined_ids ≡ true =
      λ rival. ap (any (λ j. j == o.id)) e ∙ rival_goes p.winner_id os o m rival in
    elim (Bool-cases (o.id == p.winner_id)) [
      | inl same ↦
          let own = (eq_iff o.id p.winner_id).0 same in wins own (ground (arith, stays own))
      | inr apart ↦
          let other : o.id ≢ p.winner_id = λ e. ground (arith, eq_iff o.id p.winner_id) in
          elim (Bool-cases (is_offer_open o.status)) [
            | inl was_open ↦ loses other was_open (ground (arith, goes))
            | inr no_longer ↦ was_closed other no_longer (ground arith)
          ]
    ]

All-IsSettled :
    (p : Plan) (now : ℕ) (os : List Offer)
    → ((o : Offer) → Memᴰ o os → IsSettled p now o)
    → All (IsSettled p now) os
All-IsSettled p now [] h = tt
All-IsSettled p now (o ∷ os) h =
    (h o (Memᴰ.head refl), All-IsSettled p now os (λ q m. h q (Memᴰ.tail m)))

-- An award is planned only on a load that is open and not lapsed, for an offer of the list that is
-- open and not lapsed; AWARDED and ACCEPTED are moves of the tables from there. After the
-- transaction the winner is ACCEPTED, every other offer of the list that was open is DECLINED, and
-- no other one is opened.
pub award_plan-settles :
    (l : Load) (os : List Offer) (offer_id : String) (now : ℕ) (p : Plan)
    → award_plan (some l) os offer_id now ≡ plan p
    → ((load_move l.status awarded ≡ true) × (is_expired l.expires_at now ≡ false))
      × ((w : Offer) × ((find (λ o. o.id == offer_id) os ≡ some w) × (w.id ≡ p.winner_id))
          × ((offer_move w.status accepted ≡ true) × (is_expired w.expires_at now ≡ false)))
      × All (IsSettled p now) os
unfolding award_plan load_move is_load_open offer_move is_offer_open
award_plan-settles l os offer_id now p h =
    let picked = pick_winner-IsPicked os offer_id now p (ground (arith, h)) in
    let ids : p.declined_ids ≡ rival_ids p.winner_id os =
      picked.declines ∙ ap (λ w. rival_ids w os) (sym picked.winner_is) in
    (
      (ground (arith, h), ground (arith, h)),
      (
        picked.winner,
        (picked.found_it, sym picked.winner_is),
        (ground (arith, picked.open_yet), picked.in_time),
      ),
      All-IsSettled p now os (settle_offer-IsSettled p now os ids),
    )
