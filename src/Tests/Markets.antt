-- ===== src/Tests/Markets.antt =====
-- Examples on the marketplace.
use mathlib.Core.List.{Memᴰ}
use roadwisefleet.Prelude.{
  ℕ, String, ◌≡◌, ◌⊎◌, refl, true, false, none, some, List, [], ◌∷◌, ◌==◌, All, find, filter, any,
  map,
}
use roadwisefleet.Market.States.{
  carrier, Load, Offer, offers, awarded, sent, is_expired, expired_load_ids, expired_offer_ids,
  load_move, LoadStatus, offer_name, offer_move, OfferStatus, is_offer_open, is_load_open,
}
use roadwisefleet.Market.Award.{Plan, plan, award_plan, pick_winner, is_rival}
use roadwisefleet.Market.Settle.{IsSettled, award_plan-settles}
use roadwisefleet.Market.Sweep.{
  is_in, is_at_most, sweep_load, sweep_offer, sweep_expired, expired_load, expired_offer,
  sweep_expired-lapsed,
}
use roadwisefleet.Market.AutoMatch.{
  Rules, eligible, no_dearer, auto_match_winner, auto_match_accepts, sort_by_price,
}
use roadwisefleet.Market.Cheapest.{auto_match_winner-cheapest, auto_match_winner-none}

abbrev open_load : Load
open_load = record {
  id = "l1";
  customer_id = some "c1";
  org_id = none;
  order_id = some "q1";
  status = offers;
  expires_at = some 90;
  trip_id = none;
}

abbrev offer_at : String → ℕ → ℕ → Offer
offer_at id price expiry = record {
  id = id;
  load_id = "l1";
  side = carrier;
  carrier_org_id = some id;
  carrier_user_id = none;
  price_eur = some price;
  carrier_rating = none;
  status = sent;
  expires_at = some expiry;
  decided_at = none;
}

abbrev made : List Offer
made = offer_at "a" 900 80 ∷ offer_at "b" 700 80 ∷ offer_at "c" 800 80 ∷ []

abbrev chosen : Plan
chosen = record { winner_id = "b"; declined_ids = "a" ∷ "c" ∷ [] }

b_chosen : award_plan (some open_load) made "b" 50 ≡ plan chosen
unfolding award_plan pick_winner find filter is_rival is_offer_open is_load_open is_expired
b_chosen = refl

award_plan-settles_example :
    ((load_move offers awarded ≡ true) × (is_expired (some 90) 50 ≡ false))
    × ((w : Offer) × ((find (λ o. o.id == "b") made ≡ some w) × (w.id ≡ "b"))
        × ((offer_move w.status OfferStatus.accepted ≡ true)
            × (is_expired w.expires_at 50 ≡ false)))
    × All (IsSettled chosen 50) made
award_plan-settles_example = award_plan-settles open_load made "b" 50 chosen b_chosen

sweep_expired-lapsed_example :
    (sweep_expired (some ("l1" ∷ [])) 85 (open_load ∷ []) made ≡ (
      map (expired_load (some ("l1" ∷ [])) 85) (open_load ∷ []),
      map (expired_offer (some ("l1" ∷ [])) 85) made,
    ))
    × ((l : Load)
        → (sweep_load (some ("l1" ∷ [])) 85 l ≡ l) ⊎ (load_move l.status LoadStatus.expired ≡ true))
    × ((o : Offer)
        → (sweep_offer (some ("l1" ∷ [])) 85 o ≡ o)
          ⊎ (offer_move o.status OfferStatus.expired ≡ true))
    × (expired_load_ids (sweep_expired none 85 (open_load ∷ []) made).0 85 ≡ [])
    × (expired_offer_ids (sweep_expired none 85 (open_load ∷ []) made).1 85 ≡ [])
sweep_expired-lapsed_example = sweep_expired-lapsed (some ("l1" ∷ [])) 85 (open_load ∷ []) made

late_offers :
    map (λ (o : Offer). o.status) (sweep_expired none 85 (open_load ∷ []) made).1
    ≡ OfferStatus.expired ∷ OfferStatus.expired ∷ OfferStatus.expired ∷ []
unfolding sweep_expired sweep_offer is_in is_at_most offer_name any
late_offers = refl

abbrev cap : Rules
cap = record { enabled = true; max_price_eur = some 850; min_rating = none }

b_wins : auto_match_winner cap made ≡ some (offer_at "b" 700 80)
unfolding auto_match_winner sort_by_price eligible filter auto_match_accepts is_offer_open
b_wins = refl

auto_match_winner-cheapest_example :
    (Memᴰ (offer_at "b" 700 80) made × (eligible cap (offer_at "b" 700 80) ≡ true))
    × All (λ (p : Offer). no_dearer (some 700) p.price_eur ≡ true) (filter (eligible cap) made)
auto_match_winner-cheapest_example =
    auto_match_winner-cheapest cap made (offer_at "b" 700 80) b_wins

nobody_wins : auto_match_winner cap (offer_at "a" 900 80 ∷ []) ≡ none
unfolding auto_match_winner sort_by_price eligible filter auto_match_accepts is_offer_open
nobody_wins = refl

auto_match_winner-none_example : any (eligible cap) (offer_at "a" 900 80 ∷ []) ≡ false
auto_match_winner-none_example =
    auto_match_winner-none cap (offer_at "a" 900 80 ∷ []) refl nobody_wins
