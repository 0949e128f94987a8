-- ===== src/Market/Valid.antt =====
-- What the forms that are accepted hold (apps/api/src/marketplace.js).
use roadwisefleet.Prelude.{
  String, ◌≡◌, Bool, true, false, ◌&&◌, Option, none, some, ◌==◌, eq_iff, arith,
}
use roadwisefleet.Js.{Fields, Runtime}
use roadwisefleet.Market.Fields.{valid, ends_early, no_price}
use roadwisefleet.Market.Forms.{
  LoadForm, is_pricing_mode, normalize_load_posting, OfferForm, is_cancellation_term,
  normalize_offer, normalize_award,
}

-- A load that is accepted has two different ends, a window whose end does not precede its begin, a
-- known pricing mode, and a positive price where the mode is instant.
pub normalize_load_posting-valid :
    (r : Runtime) (body : Option Fields) (f : LoadForm)
    → normalize_load_posting r body ≡ valid f
    → ((f.origin == "") ≡ false)
      × ((f.destination == "") ≡ false)
      × ((f.origin == f.destination) ≡ false)
      × (ends_early f.load_ready_at f.deliver_by_at ≡ false)
      × (is_pricing_mode f.pricing_mode ≡ true)
      × ((f.pricing_mode == "instant" && no_price f.price_eur) ≡ false)
unfolding normalize_load_posting
normalize_load_posting-valid r none f h = absurd (ground arith)
normalize_load_posting-valid r (some b) f h =
    (ground arith, ground arith, ground arith, ground arith, ground arith, ground arith)

-- An offer that is accepted has a window whose end does not precede its begin, known terms of
-- cancellation, and a positive price where one is required.
pub normalize_offer-valid :
    (r : Runtime) (require_price : Bool) (body : Option Fields) (f : OfferForm)
    → normalize_offer r require_price body ≡ valid f
    → (ends_early f.pickup_eta_at f.delivery_eta_at ≡ false)
      × (is_cancellation_term f.cancellation_terms ≡ true)
      × ((require_price && no_price f.price_eur) ≡ false)
unfolding normalize_offer
normalize_offer-valid r require_price none f h = absurd (ground arith)
normalize_offer-valid r require_price (some b) f h = (ground arith, ground arith, ground arith)

-- An award that is accepted is paid by invoice, whatever the body says.
pub normalize_award-invoice :
    (r : Runtime) (body : Option Fields) (method : String)
    → normalize_award r body ≡ valid method
    → method ≡ "invoice"
unfolding normalize_award
normalize_award-invoice r body method h = (eq_iff method "invoice").0 (ground arith)
