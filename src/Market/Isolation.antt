-- ===== src/Market/Isolation.antt =====
-- Who may do what: the isolation part of apps/api/src/marketplace.js.
use roadwisefleet.Prelude.{
  String, Bool, true, false, not, ◌&&◌, ◌||◌, Option, none, some, ◌==◌, if◌then◌else◌,
}
use roadwisefleet.Auth.Permissions.{Granted, has_permission}
use roadwisefleet.Trip.Tables.{truthy}
use roadwisefleet.Market.States.{LoadStatus, awarded, carrier, shipper, Load, Offer, is_offer_open}

pub record Principal : Type 0 where
  pub customer_id : Option String
  pub org_id : Option String
  pub user_id : Option String

-- `canPostLoad(permissions)` and `canSupply(permissions)`
unfoldable pub can_post_load : Granted → Bool
can_post_load g = has_permission g "order:create" || has_permission g "trip:create"

unfoldable pub can_supply : Granted → Bool
can_supply g = has_permission g "trip:create"

-- `if (a && b) return a === b; …`: the comparison of two ids, where both are there.
abbrev pub decide : Option String → Option String → Bool → Bool
decide none b rest = rest
decide (some a) none rest = rest
decide (some a) (some b) rest = a == b

-- `isLoadPoster(load, principal)`
unfoldable pub is_load_poster : Load → Principal → Bool
is_load_poster l p =
    decide (truthy l.customer_id) (truthy p.customer_id)
      (decide (truthy l.org_id) (truthy p.org_id) false)

abbrev pub is_awarded : LoadStatus → Bool
is_awarded awarded = true
is_awarded _ = false

-- `canReadLoad({ load, principal, permissions })`
unfoldable pub can_read_load : Load → Principal → Granted → Bool
can_read_load l p g =
    if is_load_poster l p then true else if is_awarded l.status then false else can_supply g

-- `isCarrierOf(offer, principal)`
unfoldable pub is_carrier_of : Offer → Principal → Bool
is_carrier_of o p =
    decide (truthy p.org_id) (truthy o.carrier_org_id)
      (decide (truthy p.user_id) (truthy o.carrier_user_id) false)

-- `canCounter({ offer, load, principal })`
unfoldable pub can_counter : Offer → Load → Principal → Bool
can_counter o l p =
    if not (is_offer_open o.status)
    then false
    else elim o.side [ carrier ↦ is_load_poster l p | shipper ↦ is_carrier_of o p ]

-- `canDecideOffer({ offer, load, principal })`
unfoldable pub can_decide_offer : Offer → Load → Principal → Bool
can_decide_offer o l p = is_load_poster l p

-- `canWithdrawOffer({ offer, principal })`
unfoldable pub can_withdraw_offer : Offer → Principal → Bool
can_withdraw_offer o p = elim o.side [
  | carrier ↦ is_offer_open o.status && is_carrier_of o p
  | shipper ↦ false
]
