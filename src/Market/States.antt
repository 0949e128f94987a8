-- ===== src/Market/States.antt =====
-- Load and offer statuses and expiry: the first part of apps/api/src/marketplace.js.
use roadwisefleet.Prelude.{
  ℕ, String, Bool, true, false, ◌&&◌, Option, none, some, List, map, ◌==◌, leb, filter,
  if◌then◌else◌,
}

pub data LoadStatus : Type 0 where
  posted offers awarded expired cancelled : LoadStatus

pub data OfferStatus : Type 0 where
  sent viewed countered accepted declined expired withdrawn : OfferStatus

pub data Side : Type 0 where
  carrier shipper : Side

-- `LOAD_STATUSES` and `OFFER_STATUSES`, by their names.
unfoldable pub load_status : String → Option LoadStatus
load_status s =
    if s == "POSTED"
    then some posted
    else if s == "OFFERS"
    then some offers
    else if s == "AWARDED"
    then some awarded
    else if s == "EXPIRED"
    then some LoadStatus.expired
    else if s == "CANCELLED"
    then some cancelled
    else none

unfoldable pub offer_status : String → Option OfferStatus
offer_status s =
    if s == "SENT"
    then some sent
    else if s == "VIEWED"
    then some viewed
    else if s == "COUNTERED"
    then some countered
    else if s == "ACCEPTED"
    then some accepted
    else if s == "DECLINED"
    then some declined
    else if s == "EXPIRED"
    then some OfferStatus.expired
    else if s == "WITHDRAWN"
    then some withdrawn
    else none

-- `LOAD_TRANSITIONS[from].includes(to)`
unfoldable pub load_move : LoadStatus → LoadStatus → Bool
load_move posted offers = true
load_move posted awarded = true
load_move posted LoadStatus.expired = true
load_move posted cancelled = true
load_move offers awarded = true
load_move offers LoadStatus.expired = true
load_move offers cancelled = true
load_move _ _ = false

-- `OFFER_TRANSITIONS[from].includes(to)`
unfoldable pub offer_move : OfferStatus → OfferStatus → Bool
offer_move sent sent = false
offer_move sent _ = true
offer_move viewed countered = true
offer_move viewed accepted = true
offer_move viewed declined = true
offer_move viewed OfferStatus.expired = true
offer_move viewed withdrawn = true
offer_move _ _ = false

-- The name of a status, as rows hold it.
unfoldable pub load_name : LoadStatus → String
load_name posted = "POSTED"
load_name offers = "OFFERS"
load_name awarded = "AWARDED"
load_name LoadStatus.expired = "EXPIRED"
load_name cancelled = "CANCELLED"

unfoldable pub offer_name : OfferStatus → String
offer_name sent = "SENT"
offer_name viewed = "VIEWED"
offer_name countered = "COUNTERED"
offer_name accepted = "ACCEPTED"
offer_name declined = "DECLINED"
offer_name OfferStatus.expired = "EXPIRED"
offer_name withdrawn = "WITHDRAWN"

-- `canTransitionLoad(from, to)`
unfoldable pub can_transition_load : String → String → Bool
unfolding load_status load_move
can_transition_load from to = elim (load_status from) [
  | none ↦ false
  | some s ↦ elim (load_status to) [ none ↦ false | some t ↦ load_move s t ]
]

-- `canTransitionOffer(from, to)`
unfoldable pub can_transition_offer : String → String → Bool
unfolding offer_status offer_move
can_transition_offer from to = elim (offer_status from) [
  | none ↦ false
  | some s ↦ elim (offer_status to) [ none ↦ false | some t ↦ offer_move s t ]
]

-- `isLoadOpen(status)` and `isLoadTerminal(status)`
unfoldable pub is_load_open : LoadStatus → Bool
is_load_open posted = true
is_load_open offers = true
is_load_open _ = false

unfoldable pub is_load_terminal : LoadStatus → Bool
is_load_terminal awarded = true
is_load_terminal LoadStatus.expired = true
is_load_terminal cancelled = true
is_load_terminal _ = false

-- `isOfferOpen(status)`
unfoldable pub is_offer_open : OfferStatus → Bool
is_offer_open sent = true
is_offer_open viewed = true
is_offer_open _ = false

-- `isExpired(value, now)`, for dates of rows: an absent one never expires.
unfoldable pub is_expired : Option ℕ → ℕ → Bool
is_expired none now = false
is_expired (some at) now = leb at now

-- A load, with the columns that the decisions read.
pub record Load : Type 0 where
  pub id : String
  pub customer_id : Option String
  pub org_id : Option String
  pub order_id : Option String
  pub status : LoadStatus
  pub expires_at : Option ℕ
  pub trip_id : Option String

-- An offer; a price and a rating count millionths.
pub record Offer : Type 0 where
  pub id : String
  pub load_id : String
  pub side : Side
  pub carrier_org_id : Option String
  pub carrier_user_id : Option String
  pub price_eur : Option ℕ
  pub carrier_rating : Option ℕ
  pub status : OfferStatus
  pub expires_at : Option ℕ
  pub decided_at : Option ℕ

-- `expiredOfferIds(offers, now)` and `expiredLoadIds(loads, now)`
unfoldable pub offer_lapsed : ℕ → Offer → Bool
unfolding is_offer_open is_expired
offer_lapsed now o = is_offer_open o.status && is_expired o.expires_at now

unfoldable pub expired_offer_ids : List Offer → ℕ → List String
unfolding offer_lapsed
expired_offer_ids os now = map (λ (o : Offer). o.id) (filter (offer_lapsed now) os)

unfoldable pub expired_load_ids : List Load → ℕ → List String
unfolding is_load_open is_expired
expired_load_ids ls now =
    map (λ (l : Load). l.id) (filter (λ l. is_load_open l.status && is_expired l.expires_at now) ls)
