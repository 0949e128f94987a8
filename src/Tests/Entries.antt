-- ===== src/Tests/Entries.antt =====
-- Examples on the marketplace's forms.
use roadwisefleet.Prelude.{String, ◌≡◌, refl, true, none, some, ◌==◌, if◌then◌else◌}
use roadwisefleet.Prelude.Text.{trim}
use roadwisefleet.Js.{undefined, number, text, plus, Fields}
use roadwisefleet.Market.Fields.{
  valid, ends_early, no_price, text_field, cut, number_field, date_field, equipment_field,
}
use roadwisefleet.Market.Forms.{
  LoadForm, is_pricing_mode, normalize_load_posting, OfferForm, is_cancellation_term,
  normalize_offer, normalize_award,
}
use roadwisefleet.Market.Matching.{Haul, Beacon}
use roadwisefleet.Tests.Data.{runtime}

-- `{ origin: " Riga", destination: "Oslo", priceEur: 950 }`
abbrev entry : Fields
entry key =
    if key == "origin"
    then text " Riga"
    else if key == "destination"
    then text "Oslo"
    else if key == "priceEur"
    then number (plus 950000000)
    else undefined

abbrev posting : LoadForm
posting = record {
  origin = "Riga";
  destination = "Oslo";
  cargo = none;
  equipment = none;
  load_ready_at = none;
  deliver_by_at = none;
  pricing_mode = "quotes";
  price_eur = some 950000000;
  expires_at = none;
  order_id = none;
}

entry_posted : normalize_load_posting runtime (some entry) ≡ valid posting
unfolding normalize_load_posting text_field cut trim number_field date_field equipment_field
    is_pricing_mode ends_early no_price
entry_posted = refl

abbrev bid : OfferForm
bid = record {
  price_eur = some 950000000;
  pickup_eta_at = none;
  delivery_eta_at = none;
  note = none;
  cancellation_terms = "standard";
  expires_at = none;
}

entry_offered : normalize_offer runtime true (some entry) ≡ valid bid
unfolding normalize_offer text_field cut trim number_field date_field is_cancellation_term
    ends_early no_price
entry_offered = refl

abbrev invoice : String
invoice = "invoice"

no_method : normalize_award runtime none ≡ valid invoice
unfolding normalize_award
no_method = refl

-- A load in Riga, and a beacon there.
abbrev haul : Haul
haul = record {
  origin = some "riga";
  destination = some "oslo";
  equipment = some "reefer";
  load_ready_at = some 40;
}

abbrev near : Beacon
near = record { location = some "riga"; heading = none; equipment = none; available_from = some 30 }

abbrev as_is : String → String
as_is s = s
