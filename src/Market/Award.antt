-- ===== src/Market/Award.antt =====
-- Awarding a load: `awardPlan`, `buildAwardTripData` and `awardOutcomeNotifications` of
-- apps/api/src/marketplace.js, and the transaction of apps/api/src/routes/marketplace.ts.
use roadwisefleet.Prelude.{
  ℕ, String, Bool, true, false, not, ◌&&◌, ◌||◌, Option, none, some, List, ◌∷◌, map, ◌==◌, filter,
  find, any, if◌then◌else◌,
}
use roadwisefleet.Js.{plus}
use roadwisefleet.Trip.Status.{draft}
use roadwisefleet.Trip.Tables.{TripData, truthy}
use roadwisefleet.Market.States.{
  LoadStatus, awarded, OfferStatus, accepted, declined, Load, Offer, is_load_open, is_offer_open,
  is_expired,
}

pub data AwardError : Type 0 where
  load_not_found load_awarded load_closed load_expired order_required : AwardError
  offer_not_found offer_expired offer_closed : AwardError

pub record Plan : Type 0 where
  pub winner_id : String
  pub declined_ids : List String

pub data AwardReply : Type 0 where
  plan : Plan → AwardReply
  no_award : AwardError → AwardReply

abbrev pub is_awarded : LoadStatus → Bool
is_awarded awarded = true
is_awarded _ = false

abbrev pub is_expired_status : OfferStatus → Bool
is_expired_status OfferStatus.expired = true
is_expired_status _ = false

-- The open offers other than the winner.
unfoldable pub is_rival : String → Offer → Bool
is_rival winner_id o = not (o.id == winner_id) && is_offer_open o.status

-- The second half of `awardPlan`: the winner and the offers declined.
unfoldable pub pick_winner : List Offer → String → ℕ → AwardReply
unfolding is_rival
pick_winner os offer_id now = elim (find (λ o. o.id == offer_id) os) [
  | none ↦ no_award offer_not_found
  | some w ↦
      if is_expired_status w.status || is_expired w.expires_at now
      then no_award offer_expired
      else if not (is_offer_open w.status)
      then no_award offer_closed
      else plan (record {
        winner_id = w.id;
        declined_ids = map (λ (o : Offer). o.id) (filter (is_rival w.id) os);
      })
]

-- `awardPlan({ load, offers, offerId, now })`
unfoldable pub award_plan : Option Load → List Offer → String → ℕ → AwardReply
award_plan none os offer_id now = no_award load_not_found
award_plan (some l) os offer_id now =
    if is_awarded l.status
    then no_award load_awarded
    else if not (is_load_open l.status)
    then no_award load_closed
    else if is_expired l.expires_at now
    then no_award load_expired
    else elim (truthy l.order_id) [
      | none ↦ no_award order_required
      | some _ ↦ pick_winner os offer_id now
    ]

-- `buildAwardTripData({ load, offer })`; `none` where the row lacks a key that the trip needs.
unfoldable pub build_award_trip_data : Load → Offer → Option TripData
build_award_trip_data l o = elim l.order_id [
  | none ↦ none
  | some order_id ↦ elim o.carrier_org_id [
    | none ↦ none
    | some org_id ↦ some (record {
      org_id = org_id;
      order_id = order_id;
      driver_id = truthy o.carrier_user_id;
      truck_id = none;
      rate_eur = elim o.price_eur [ none ↦ none | some price ↦ some (plus price) ];
      status = draft;
    })
  ]
]

-- An offer after the award's transaction: the winner ACCEPTED, and those declined DECLINED.
unfoldable pub settle_offer : Plan → ℕ → Offer → Offer
settle_offer p now o =
    if any (λ i. i == o.id) p.declined_ids
    then record o { status = declined; decided_at = some now }
    else if o.id == p.winner_id
    then record o { status = accepted; decided_at = some now }
    else o

pub data Audience : Type 0 where
  to_shipper to_carrier : Audience

pub data Kind : Type 0 where
  won lost : Kind

pub record Notice : Type 0 where
  pub audience : Audience
  pub kind : Kind
  pub load_id : String
  pub offer_id : String
  pub trip_id : Option String
  pub org_id : Option String

lost_notice : Load → Offer → Notice
lost_notice l o = record {
  audience = to_carrier;
  kind = lost;
  load_id = l.id;
  offer_id = o.id;
  trip_id = none;
  org_id = o.carrier_org_id;
}

-- `awardOutcomeNotifications({ load, offer, trip, declinedOffers })`
unfoldable pub award_outcome_notifications : Load → Offer → String → List Offer → List Notice
unfolding lost_notice
award_outcome_notifications l o trip_id rivals =
    let notice : Audience → Option String → Notice = λ who org. record {
      audience = who;
      kind = won;
      load_id = l.id;
      offer_id = o.id;
      trip_id = some trip_id;
      org_id = org;
    } in
    notice to_shipper none ∷ notice to_carrier o.carrier_org_id ∷ map (lost_notice l) rivals
