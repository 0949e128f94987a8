-- ===== src/Market/Forms.antt =====
-- The marketplace's forms: `normalizeLoadPosting`, `normalizeBeacon`, `normalizeOffer`,
-- `normalizeAward` and `normalizeAutoMatch` of apps/api/src/marketplace.js. The details of an
-- error, texts for a log, are left out.
use roadwisefleet.Prelude.{
  ℕ, ◌*◌, String, Bool, true, false, not, ◌&&◌, ◌||◌, Option, none, some, ◌==◌, ltb, if◌then◌else◌,
}
use roadwisefleet.Js.{
  plus, nan, Value, undefined, null, bool, number, text, Fields, Runtime, million,
}
use roadwisefleet.Market.Fields.{
  Checked, valid, fail, ◌>>=◌, ◌>>◌, fail_if, text_field, or_null, number_field, date_field,
  required, ends_early, no_price, equipment_field,
}
use roadwisefleet.Market.AutoMatch.{Rules}

pub record LoadForm : Type 0 where
  pub origin : String
  pub destination : String
  pub cargo : Option String
  pub equipment : Option String
  pub load_ready_at : Option ℕ
  pub deliver_by_at : Option ℕ
  pub pricing_mode : String
  pub price_eur : Option ℕ
  pub expires_at : Option ℕ
  pub order_id : Option String

-- `PRICING_MODES.includes(s)`
unfoldable pub is_pricing_mode : String → Bool
is_pricing_mode s = s == "instant" || s == "quotes" || s == "budget"

-- `s || fallback`
abbrev or_text : String → String → String
or_text s fallback = if s == "" then fallback else s

abbrev load_date : String
load_date = "market.load.error.dateInvalid"

-- `normalizeLoadPosting(body)`
unfoldable pub normalize_load_posting : Runtime → Option Fields → Checked LoadForm
normalize_load_posting r none = fail "form" "market.load.error.formInvalid"
normalize_load_posting r (some b) = do
  origin ← required "origin" "market.load.error.originRequired" (text_field r (b "origin") 200)
  destination ←
      required "destination" "market.load.error.destinationRequired"
        (text_field r (b "destination") 200)
  fail_if (origin == destination) "destination" "market.load.error.sameRoute"
  equipment ← equipment_field "market.load.error.equipmentUnknown" r (b "equipment")
  load_ready_at ← date_field "loadReadyAt" load_date r (b "loadReadyAt")
  deliver_by_at ← date_field "deliverByAt" load_date r (b "deliverByAt")
  fail_if (ends_early load_ready_at deliver_by_at) "deliverByAt" "market.load.error.windowOrder"
  fail_if (not (is_pricing_mode (or_text (text_field r (b "pricingMode") 20) "quotes")))
      "pricingMode" "market.load.error.pricingUnknown"
  price_eur ← number_field "priceEur" "market.load.error.amountInvalid" r (b "priceEur")
  fail_if (or_text (text_field r (b "pricingMode") 20) "quotes" == "instant" && no_price price_eur)
      "priceEur" "market.load.error.instantRateRequired"
  expires_at ← date_field "expiresAt" load_date r (b "expiresAt")
  valid (record {
    origin = origin;
    destination = destination;
    cargo = or_null (text_field r (b "cargo") 200);
    equipment = equipment;
    load_ready_at = load_ready_at;
    deliver_by_at = deliver_by_at;
    pricing_mode = or_text (text_field r (b "pricingMode") 20) "quotes";
    price_eur = price_eur;
    expires_at = expires_at;
    order_id = or_null (text_field r (b "orderId") 60);
  })

pub record BeaconForm : Type 0 where
  pub location : String
  pub heading : Option String
  pub available_from : Option ℕ
  pub equipment : Option String
  pub min_rate_eur : Option ℕ
  pub expires_at : Option ℕ

-- `normalizeBeacon(body)`
unfoldable pub normalize_beacon : Runtime → Option Fields → Checked BeaconForm
normalize_beacon r none = fail "form" "market.beacon.error.formInvalid"
normalize_beacon r (some b) = do
  location ←
      required "location" "market.beacon.error.locationRequired" (text_field r (b "location") 200)
  equipment ← equipment_field "market.beacon.error.equipmentUnknown" r (b "equipment")
  available_from ←
      date_field "availableFrom" "market.beacon.error.dateInvalid" r (b "availableFrom")
  expires_at ← date_field "expiresAt" "market.beacon.error.dateInvalid" r (b "expiresAt")
  min_rate_eur ← number_field "minRateEur" "market.beacon.error.amountInvalid" r (b "minRateEur")
  valid (record {
    location = location;
    heading = or_null (text_field r (b "heading") 200);
    available_from = available_from;
    equipment = equipment;
    min_rate_eur = min_rate_eur;
    expires_at = expires_at;
  })

pub record OfferForm : Type 0 where
  pub price_eur : Option ℕ
  pub pickup_eta_at : Option ℕ
  pub delivery_eta_at : Option ℕ
  pub note : Option String
  pub cancellation_terms : String
  pub expires_at : Option ℕ

-- `isCancellationTerm(value)`
unfoldable pub is_cancellation_term : String → Bool
is_cancellation_term s = s == "standard" || s == "flexible" || s == "strict"

abbrev offer_date : String
offer_date = "market.offer.error.dateInvalid"

-- `normalizeOffer(body, { requirePrice })`
unfoldable pub normalize_offer : Runtime → Bool → Option Fields → Checked OfferForm
normalize_offer r require_price none = fail "form" "market.offer.error.formInvalid"
normalize_offer r require_price (some b) = do
  price_eur ← number_field "priceEur" "market.offer.error.amountInvalid" r (b "priceEur")
  fail_if (require_price && no_price price_eur) "priceEur" "market.offer.error.priceRequired"
  pickup_eta_at ← date_field "pickupEtaAt" offer_date r (b "pickupEtaAt")
  delivery_eta_at ← date_field "deliveryEtaAt" offer_date r (b "deliveryEtaAt")
  fail_if (ends_early pickup_eta_at delivery_eta_at) "deliveryEtaAt"
      "market.offer.error.windowOrder"
  expires_at ← date_field "expiresAt" offer_date r (b "expiresAt")
  fail_if
      (not (is_cancellation_term (or_text (text_field r (b "cancellationTerms") 20) "standard")))
      "cancellationTerms" "market.offer.error.termsUnknown"
  valid (record {
    price_eur = price_eur;
    pickup_eta_at = pickup_eta_at;
    delivery_eta_at = delivery_eta_at;
    note = or_null (text_field r (b "note") 500);
    cancellation_terms = or_text (text_field r (b "cancellationTerms") 20) "standard";
    expires_at = expires_at;
  })

-- The key `paymentMethod` of the award's body; a body that is no object has none.
abbrev payment_method : Runtime → Option Fields → String
payment_method r none = "invoice"
payment_method r (some b) = or_text (text_field r (b "paymentMethod") 30) "invoice"

-- `normalizeAward(body)`
unfoldable pub normalize_award : Runtime → Option Fields → Checked String
normalize_award r body =
    let method = payment_method r body in
    if method == "escrow"
    then fail "paymentMethod" "market.award.error.escrowDeferred"
    else if not (method == "invoice")
    then fail "paymentMethod" "market.award.error.paymentUnknown"
    else valid method

-- `b.enabled === undefined ? false : Boolean(b.enabled)`
unfoldable pub is_on : Value → Bool
is_on undefined = false
is_on null = false
is_on (bool b) = b
is_on (number nan) = false
is_on (number (plus n)) = ltb 0 n
is_on (text s) = not (s == "")
is_on _ = true

-- `minRating.value !== null && minRating.value > 5`
unfoldable pub too_high : Option ℕ → Bool
too_high none = false
too_high (some n) = ltb (5 * million) n

-- `normalizeAutoMatch(body)`
unfoldable pub normalize_auto_match : Runtime → Option Fields → Checked Rules
normalize_auto_match r none = fail "form" "market.autoMatch.error.formInvalid"
normalize_auto_match r (some b) = do
  max_price_eur ←
      number_field "maxPriceEur" "market.autoMatch.error.amountInvalid" r (b "maxPriceEur")
  min_rating ← number_field "minRating" "market.autoMatch.error.amountInvalid" r (b "minRating")
  fail_if (too_high min_rating) "minRating" "market.autoMatch.error.ratingRange"
  valid (record {
    enabled = is_on (b "enabled");
    max_price_eur = max_price_eur;
    min_rating = min_rating;
  })
