-- ===== src/Notify/Refs.antt =====
-- References, amounts and instants as the templates read them, and the links of a notification:
-- apps/api/src/notifications.js.
use Prim.Native.String.{◌++◌}
use roadwisefleet.Prelude.{
  ℕ, zero, suc, ◌-◌, ◌/◌, String, Bool, not, Option, none, some, same, if◌then◌else◌,
}
use roadwisefleet.Js.{Value, number, text, other, Number, Runtime, is_finite, is_absent}
use roadwisefleet.Share.Cuts.{is_empty, strip}
use roadwisefleet.Share.Tokens.{Codec}
use roadwisefleet.Share.Links.{Keys}
use roadwisefleet.Share.Windows.{Window, reconstruct_track_link, mint_document_link}
use roadwisefleet.Share.Urls.{public_guest_url, public_track_url}
use roadwisefleet.Docs.Names.{or_other, first_chars}
use roadwisefleet.Notify.Events.{trimmed}
use roadwisefleet.Notify.Contacts.{units}
use roadwisefleet.Notify.FileName.{alphanumerics}
use roadwisefleet.Notify.Emit.{drop_chars}

-- What the program uses of the built-in conversions besides `Runtime`: `toUpperCase`, what an object
-- gives by its method `toNumber`, `toFixed(2)` and `toISOString`.
pub record Formats : Type 0 where
  pub runtime : Runtime
  pub upper : String → String
  pub decimal : String → Option Number
  pub to_fixed : Number → String
  pub iso : ℕ → String

-- `isAssignmentChange(previousDriverId, driverId)`
unfoldable pub is_assignment_change : Option String → Option String → Bool
is_assignment_change previous driver_id = not (same previous driver_id)

-- `toNumber(value)`
unfoldable pub number_of : Formats → Value → Option Number
number_of f (number n) = if is_finite n then some n else none
number_of f (text s) =
    if is_empty s
    then none
    else let n = f.runtime.to_number (text s) in if is_finite n then some n else none
number_of f (other s) = f.decimal s
number_of f _ = none

-- `toDate(value)`
unfoldable pub instant_of : Formats → Value → Option ℕ
instant_of f v = if is_absent v then none else f.runtime.date_of v

-- `s.slice(-n)`
unfoldable pub last_chars : ℕ → String → String
last_chars n s = drop_chars (units s - n) s

unfoldable pub or_else_other : Option String → Option String → Option String
or_else_other none b = b
or_else_other (some a) b = some a

-- What stands behind one of the words `ORDER|ORD|TRIP|LOAD`, the first that fits.
unfoldable pub strip_word : String → Option String
strip_word s =
    or_else_other (strip "ORDER" s)
      (or_else_other (strip "ORD" s) (or_else_other (strip "TRIP" s) (strip "LOAD" s)))

-- `s.replace(/^(?:ORDER|ORD|TRIP|LOAD)+/, '')`, one word for each unit of fuel
unfoldable pub drop_words : ℕ → String → String
drop_words zero s = s
drop_words (suc n) s = elim (strip_word s) [ none ↦ s | some rest ↦ drop_words n rest ]

-- The text without the words that it begins with; it has no more words than units.
abbrev pub bare : String → String
bare s = drop_words (units s) s

-- `tripRef({ orderId, tripId, loadId })`
unfoldable pub trip_ref_of : (String → String) → Value → Value → Value → String
trip_ref_of upper order_id trip_id load_id =
    let seed = or_other (or_other (trimmed order_id) (trimmed trip_id)) (trimmed load_id) in
    let compact = upper (alphanumerics seed) in
    if is_empty seed then "" else "RWF-" ++ last_chars 8 (or_other (bare compact) compact)

-- `invoiceRefFor(document)`, of its id
unfoldable pub invoice_ref_for : (String → String) → Value → String
invoice_ref_for upper id =
    let name = upper (alphanumerics (trimmed id)) in
    if is_empty name then "" else "INV-" ++ last_chars 8 name

-- `formatMoney(value)`
unfoldable pub format_money : Formats → Value → String
format_money f v = elim (number_of f v) [ none ↦ "" | some n ↦ f.to_fixed n ++ " EUR" ]

-- `formatEta(value)`
unfoldable pub format_eta : Formats → Value → String
format_eta f v = elim (instant_of f v) [
  | none ↦ ""
  | some at ↦
      let iso = f.iso at in
      first_chars 10 iso ++ (" " ++ (first_chars 5 (drop_chars 11 iso) ++ " UTC"))
]

-- The links: `encode` is the built-in `encodeURIComponent`.
module _ (k : Codec) (encode : String → String) where
  -- `tripLinkFor(trip, { authSecret, secret, baseUrl, now })`; the outer `none` is where it throws
  unfoldable pub trip_link_for : Window → Keys → Value → ℕ → Option (Option String)
  trip_link_for w keys base_url now = elim (reconstruct_track_link k w keys now) [
    | none ↦ none
    | some none ↦ some none
    | some (some l) ↦ some (some (public_track_url encode base_url l.token))
  ]

  -- `documentLinkFor(trip, document, { scope, authSecret, secret, baseUrl, now })`, where `none` is null:
  -- the scope of a link that was minted is one of the two
  unfoldable pub document_link_for : Window → Value → String → Keys → Value → ℕ → Option String
  document_link_for w document_id scope keys base_url now =
      elim (mint_document_link k w document_id (text scope) keys (now / 1000)) [
        | none ↦ none
        | some l ↦ public_guest_url encode base_url scope l.token
      ]
