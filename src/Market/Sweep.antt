-- ===== src/Market/Sweep.antt =====
-- The sweep of lapsed loads and offers: apps/api/src/marketplace-sweep.js.
use roadwisefleet.Prelude.{
  ℕ, String, ◌≡◌, ◌⊎◌, inl, inr, refl, ap, ◌∙◌, Bool, true, false, ◌&&◌, Option, none, some, List,
  [], ◌∷◌, map, ◌==◌, leb, filter, any, if◌then◌else◌, arith, Bool-cases,
}
use roadwisefleet.Market.States.{
  LoadStatus, OfferStatus, posted, offers, sent, viewed, Load, Offer, load_name, offer_name,
  load_move, offer_move, is_load_open, is_offer_open, is_expired, offer_lapsed, expired_offer_ids,
  expired_load_ids,
}

-- `OPEN_LOADS` and `OPEN_OFFERS`
abbrev pub open_loads : List String
open_loads = "POSTED" ∷ "OFFERS" ∷ []

abbrev pub open_offers : List String
open_offers = "SENT" ∷ "VIEWED" ∷ []

-- `{ in: names }` and `{ lte: now }` of a filter: an instant that is absent is not selected.
unfoldable pub is_in : List String → String → Bool
is_in names s = any (λ n. n == s) names

unfoldable pub is_at_most : ℕ → Option ℕ → Bool
is_at_most now none = false
is_at_most now (some at) = leb at now

-- The filter on the loads' ids, where there is one.
abbrev pub among : Option (List String) → String → Bool
among none id = true
among (some ids) id = is_in ids id

-- The two updates of `sweepExpired(prisma, loadIds)`, on a row.
unfoldable pub sweep_load : Option (List String) → ℕ → Load → Load
unfolding is_in is_at_most
sweep_load load_ids now l =
    if is_in open_loads (load_name l.status) && is_at_most now l.expires_at && among load_ids l.id
    then record l { status = LoadStatus.expired }
    else l

unfoldable pub sweep_offer : Option (List String) → ℕ → Offer → Offer
unfolding is_in is_at_most
sweep_offer load_ids now o =
    if is_in open_offers (offer_name o.status)
      && is_at_most now o.expires_at
      && among load_ids o.load_id
    then record o { status = OfferStatus.expired; decided_at = some now }
    else o

-- `sweepExpired(prisma, loadIds)`
unfoldable pub sweep_expired :
    Option (List String) → ℕ → List Load → List Offer → List Load × List Offer
unfolding sweep_load sweep_offer
sweep_expired load_ids now ls os =
    (map (sweep_load load_ids now) ls, map (sweep_offer load_ids now) os)

-- What marketplace.js calls lapsed, of the loads that are asked for.
abbrev pub lapsed_load : Option (List String) → ℕ → Load → Bool
lapsed_load load_ids now l =
    is_load_open l.status
    && is_expired l.expires_at now
    && elim load_ids [ none ↦ true | some ids ↦ any (λ i. i == l.id) ids ]

abbrev pub lapsed_offer : Option (List String) → ℕ → Offer → Bool
lapsed_offer load_ids now o =
    is_offer_open o.status
    && is_expired o.expires_at now
    && elim load_ids [ none ↦ true | some ids ↦ any (λ i. i == o.load_id) ids ]

abbrev pub expired_load : Option (List String) → ℕ → Load → Load
expired_load load_ids now l =
    if lapsed_load load_ids now l then record l { status = LoadStatus.expired } else l

abbrev pub expired_offer : Option (List String) → ℕ → Offer → Offer
expired_offer load_ids now o =
    if lapsed_offer load_ids now o
    then record o { status = OfferStatus.expired; decided_at = some now }
    else o

is_in-load_name : (s : LoadStatus) → is_in open_loads (load_name s) ≡ is_load_open s
unfolding is_in load_name is_load_open any
is_in-load_name posted = refl
is_in-load_name offers = refl
is_in-load_name _ = refl

is_in-offer_name : (s : OfferStatus) → is_in open_offers (offer_name s) ≡ is_offer_open s
unfolding is_in offer_name is_offer_open any
is_in-offer_name sent = refl
is_in-offer_name viewed = refl
is_in-offer_name _ = refl

is_at_most-is_expired : (at : Option ℕ) (now : ℕ) → is_at_most now at ≡ is_expired at now
unfolding is_at_most is_expired
is_at_most-is_expired none now = refl
is_at_most-is_expired (some at) now = refl

sweep_load-expired :
    (load_ids : Option (List String)) (now : ℕ) (l : Load)
    → sweep_load load_ids now l ≡ expired_load load_ids now l
unfolding sweep_load is_in
sweep_load-expired none now l =
    rw (is_in-load_name l.status, is_at_most-is_expired l.expires_at now)
sweep_load-expired (some ids) now l =
    rw (is_in-load_name l.status, is_at_most-is_expired l.expires_at now)

sweep_offer-expired :
    (load_ids : Option (List String)) (now : ℕ) (o : Offer)
    → sweep_offer load_ids now o ≡ expired_offer load_ids now o
unfolding sweep_offer is_in
sweep_offer-expired none now o =
    rw (is_in-offer_name o.status, is_at_most-is_expired o.expires_at now)
sweep_offer-expired (some ids) now o =
    rw (is_in-offer_name o.status, is_at_most-is_expired o.expires_at now)

map-sweep_load :
    (load_ids : Option (List String)) (now : ℕ) (ls : List Load)
    → map (sweep_load load_ids now) ls ≡ map (expired_load load_ids now) ls
map-sweep_load load_ids now [] = refl
map-sweep_load load_ids now (l ∷ ls) =
    rw (sweep_load-expired load_ids now l, map-sweep_load load_ids now ls)

map-sweep_offer :
    (load_ids : Option (List String)) (now : ℕ) (os : List Offer)
    → map (sweep_offer load_ids now) os ≡ map (expired_offer load_ids now) os
map-sweep_offer load_ids now [] = refl
map-sweep_offer load_ids now (o ∷ os) =
    rw (sweep_offer-expired load_ids now o, map-sweep_offer load_ids now os)

no_late_load :
    (now : ℕ) (ls : List Load) → expired_load_ids (map (expired_load none now) ls) now ≡ []
unfolding expired_load_ids filter is_load_open
no_late_load now [] = refl
no_late_load now (l ∷ ls) =
    elim (Bool-cases (is_load_open l.status && is_expired l.expires_at now)) [
      | inl late ↦ ground (arith, no_late_load now ls)
      | inr timely ↦ ground (arith, no_late_load now ls)
    ]

no_late_offer :
    (now : ℕ) (os : List Offer) → expired_offer_ids (map (expired_offer none now) os) now ≡ []
unfolding expired_offer_ids offer_lapsed filter is_offer_open
no_late_offer now [] = refl
no_late_offer now (o ∷ os) =
    elim (Bool-cases (is_offer_open o.status && is_expired o.expires_at now)) [
      | inl late ↦ ground (arith, no_late_offer now os)
      | inr timely ↦ ground (arith, no_late_offer now os)
    ]

load_moves :
    (load_ids : Option (List String)) (now : ℕ) (l : Load)
    → (sweep_load load_ids now l ≡ l) ⊎ (load_move l.status LoadStatus.expired ≡ true)
unfolding load_move is_load_open
load_moves load_ids now l = elim (Bool-cases (lapsed_load load_ids now l)) [
  | inl late ↦ inr (ground (arith, late))
  | inr timely ↦ inl (sweep_load-expired load_ids now l ∙ ground (arith, timely))
]

offer_moves :
    (load_ids : Option (List String)) (now : ℕ) (o : Offer)
    → (sweep_offer load_ids now o ≡ o) ⊎ (offer_move o.status OfferStatus.expired ≡ true)
unfolding offer_move is_offer_open
offer_moves load_ids now o = elim (Bool-cases (lapsed_offer load_ids now o)) [
  | inl late ↦ inr (ground (arith, late))
  | inr timely ↦ inl (sweep_offer-expired load_ids now o ∙ ground (arith, timely))
]

-- The sweep, with its own lists of statuses and its own test of the instant, agrees with
-- marketplace.js: it makes EXPIRED just the rows that `isLoadOpen` or `isOfferOpen` and `isExpired`
-- call lapsed, of the loads that are asked for or of all, dates the offers among them, and changes
-- nothing else; each row that it changes makes a move that the tables allow; and after a sweep of
-- all, `expiredLoadIds` and `expiredOfferIds` find nothing.
pub sweep_expired-lapsed :
    (load_ids : Option (List String)) (now : ℕ) (ls : List Load) (os : List Offer)
    → (sweep_expired load_ids now ls os
        ≡ (map (expired_load load_ids now) ls, map (expired_offer load_ids now) os))
      × ((l : Load)
          → (sweep_load load_ids now l ≡ l) ⊎ (load_move l.status LoadStatus.expired ≡ true))
      × ((o : Offer)
          → (sweep_offer load_ids now o ≡ o) ⊎ (offer_move o.status OfferStatus.expired ≡ true))
      × (expired_load_ids (sweep_expired none now ls os).0 now ≡ [])
      × (expired_offer_ids (sweep_expired none now ls os).1 now ≡ [])
unfolding sweep_expired
sweep_expired-lapsed load_ids now ls os = (
  rw (map-sweep_load load_ids now ls, map-sweep_offer load_ids now os),
  load_moves load_ids now,
  offer_moves load_ids now,
  ap (λ xs. expired_load_ids xs now) (map-sweep_load none now ls) ∙ no_late_load now ls,
  ap (λ xs. expired_offer_ids xs now) (map-sweep_offer none now os) ∙ no_late_offer now os,
)
