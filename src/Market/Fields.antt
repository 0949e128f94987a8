-- ===== src/Market/Fields.antt =====
-- The fields of the marketplace's forms: the helpers of apps/api/src/marketplace.js that read one
-- value. A text is cut at a whole character where the source would split a pair of units.
use Prim.Native.Char.{code}
use Prim.Native.String
use Prim.Native.String.{[], ◌∷◌}
use roadwisefleet.Prelude.{
  ℕ, ◌-◌, String, Bool, true, false, not, ◌&&◌, ◌||◌, Option, none, some, ◌==◌, leb, ltb,
  if◌then◌else◌,
}
use roadwisefleet.Prelude.Text.{trim}
use roadwisefleet.Js.{Number, plus, Value, number, text, Runtime, is_nullish, is_absent, to_text}

-- What a form's check answers: the value, or the field with the key of its message.
pub data Checked {ℓ} (A : Type ℓ) : Type ℓ where
  valid : A → Checked A
  fail : String → String → Checked A

infixl 5 ◌>>=◌ ◌>>◌
abbrev pub ◌>>=◌ {ℓ κ} : {A : Type ℓ} {B : Type κ} → Checked A → (A → Checked B) → Checked B
valid a >>= f = f a
fail field key >>= f = fail field key

abbrev pub ◌>>◌ {ℓ} : {B : Type ℓ} → Checked (Unit {0}) → Checked B → Checked B
m >> k = m >>= λ _. k

-- `if (b) return fail(field, messageKey, …)`
abbrev pub fail_if : Bool → String → String → Checked (Unit {0})
fail_if true field key = fail field key
fail_if false field key = valid tt

-- `s.slice(0, n)`, with the units of 16 bits that a character takes.
unfoldable pub cut : ℕ → String → String
cut n [] = []
cut n (c ∷ s) =
    let units = (if leb 65536 (code c) then 2 else 1) in
    let rest = cut (n - units) s in if leb units n then c ∷ rest else []

-- `s.replace(',', '.')`: the first comma.
unfoldable pub point_for_comma : String → String
point_for_comma [] = []
point_for_comma (c ∷ s) =
    let rest = point_for_comma s in
    if leb 44 (code c) && leb (code c) 44 then String.◌++◌ "." s else c ∷ rest

-- `text(value, max)`
unfoldable pub text_field : Runtime → Value → ℕ → String
text_field r v max = if is_nullish v then "" else cut max (trim (to_text r v))

-- `s || null`
abbrev pub or_null : String → Option String
or_null s = if s == "" then none else some s

-- The number that a value is read as.
abbrev as_number : Runtime → Value → Number
as_number r (number n) = n
as_number r v = r.to_number (text (point_for_comma (trim (to_text r v))))

-- `optionalNumber(value)`, with `fail` where it is refused; a number counts millionths.
unfoldable pub number_field : String → String → Runtime → Value → Checked (Option ℕ)
unfolding point_for_comma
number_field field key r v =
    if is_absent v
    then valid none
    else elim (as_number r v) [ plus n ↦ valid (some n) | _ ↦ fail field key ]

-- `optionalDate(value)`, with `fail` where it is refused.
unfoldable pub date_field : String → String → Runtime → Value → Checked (Option ℕ)
date_field field key r v =
    if is_absent v
    then valid none
    else elim (r.date_of (text (to_text r v))) [ none ↦ fail field key | some at ↦ valid (some at) ]

-- `if (!s) return fail(…)`
abbrev pub required : String → String → String → Checked String
required field key s = if s == "" then fail field key else valid s

-- `to && from && to < from`
unfoldable pub ends_early : Option ℕ → Option ℕ → Bool
ends_early (some from) (some to) = ltb to from
ends_early _ _ = false

-- `price === null || price <= 0`
unfoldable pub no_price : Option ℕ → Bool
no_price none = true
no_price (some n) = leb n 0

-- `EQUIPMENT_OPTIONS.includes(s)`, the vocabulary of the customer's client.
unfoldable pub is_equipment : String → Bool
is_equipment s =
    s == "curtainsider"
    || s == "reefer"
    || s == "flatbed"
    || s == "box"
    || s == "tanker"
    || s == "tail_lift"
    || s == "adr"
    || s == "container"

-- The field `equipment` of a form.
unfoldable pub equipment_field : String → Runtime → Value → Checked (Option String)
equipment_field key r v =
    let s = text_field r v 40 in
    if not (s == "") && not (is_equipment s) then fail "equipment" key else valid (or_null s)
