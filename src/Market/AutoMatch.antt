-- ===== src/Market/AutoMatch.antt =====
-- Automatic matching: `autoMatchEntitlement`, `autoMatchAccepts` and
-- `autoMatchWinner` of apps/api/src/marketplace.js.
use roadwisefleet.Prelude.{
  ℕ, Bool, true, false, not, ◌&&◌, Option, none, some, List, [], ◌∷◌, leb, filter, if◌then◌else◌,
}
use roadwisefleet.Market.States.{Offer, is_offer_open}

pub record Rules : Type 0 where
  pub enabled : Bool
  pub max_price_eur : Option ℕ
  pub min_rating : Option ℕ

pub record Entitlement : Type 0 where
  pub allowed : Bool
  pub active : Bool

-- `autoMatchEntitlement(rules, { ownerApproved })`
unfoldable pub auto_match_entitlement : Option Rules → Bool → Entitlement
auto_match_entitlement none approved = record { allowed = true; active = false }
auto_match_entitlement (some r) approved =
    if r.enabled && not approved
    then record { allowed = false; active = false }
    else record { allowed = true; active = r.enabled && approved }

-- A price under the cap: without a cap any, else one that is there and not above.
unfoldable pub price_fits : Option ℕ → Option ℕ → Bool
price_fits none price = true
price_fits (some cap) none = false
price_fits (some cap) (some p) = leb p cap

-- A rating over the floor.
unfoldable pub rating_fits : Option ℕ → Option ℕ → Bool
rating_fits none rating = true
rating_fits (some floor) none = false
rating_fits (some floor) (some r) = leb floor r

-- `autoMatchAccepts(rules, offer)`
unfoldable pub auto_match_accepts : Rules → Offer → Bool
unfolding price_fits rating_fits
auto_match_accepts r o =
    r.enabled && price_fits r.max_price_eur o.price_eur && rating_fits r.min_rating o.carrier_rating

-- `a.priceEur ?? Infinity` at most `b.priceEur ?? Infinity`
unfoldable pub no_dearer : Option ℕ → Option ℕ → Bool
no_dearer a none = true
no_dearer none (some b) = false
no_dearer (some a) (some b) = leb a b

-- The stable `sort` by ascending price.
unfoldable pub insert : Offer → List Offer → List Offer
insert o [] = o ∷ []
insert o (p ∷ ps) = if no_dearer o.price_eur p.price_eur then o ∷ p ∷ ps else p ∷ insert o ps

unfoldable pub sort_by_price : List Offer → List Offer
unfolding insert no_dearer
sort_by_price [] = []
sort_by_price (o ∷ os) = insert o (sort_by_price os)

unfoldable pub eligible : Rules → Offer → Bool
eligible r o = is_offer_open o.status && auto_match_accepts r o

-- `autoMatchWinner(rules, offers)`
unfoldable pub auto_match_winner : Rules → List Offer → Option Offer
auto_match_winner r os =
    if not r.enabled
    then none
    else elim (sort_by_price (filter (eligible r) os)) [ [] ↦ none | o ∷ _ ↦ some o ]
