-- ===== src/Js.antt =====
-- The values of the language that the request bodies are made of.
-- A finite number is kept as a count of millionths, the grain at which the program's coordinates,
-- amounts and instants are compared; `minus n` is -(n + 1) millionths.
use roadwisefleet.Prelude.{ℕ, ◌+◌, ◌*◌, ◌/◌, String, Bool, true, false, Option, ◌==◌, leb, ltb}

pub data Number : Type 0 where
  nan infinite neg_infinite : Number
  plus minus : ℕ → Number

-- A value that is an object, an array or a function is `other`, with what `String(value)` gives.
pub data Value : Type 0 where
  undefined null : Value
  bool : Bool → Value
  number : Number → Value
  text : String → Value
  other : String → Value

-- An object: its value at each key, `undefined` where it has none.
abbrev pub Fields : Type 0
Fields = String → Value

abbrev pub million : ℕ
million = 1000000

-- `Number.isFinite(n)`
abbrev pub is_finite : Number → Bool
is_finite (plus n) = true
is_finite (minus n) = true
is_finite _ = false

-- `n > k`, for a whole number `k`.
abbrev pub above : Number → ℕ → Bool
above (plus n) k = ltb (k * million) n
above infinite k = true
above _ k = false

-- `n < -k`
abbrev pub below_minus : Number → ℕ → Bool
below_minus (minus n) k = leb (k * million) n
below_minus neg_infinite k = true
below_minus _ k = false

-- `Math.round(n)` of a number that is finite and not negative.
abbrev pub round : ℕ → ℕ
round n = (n + 500000) / million

-- What the program uses of the built-in conversions, which are no part of the repository:
-- `Number(value)`, `String(n)` for a number, and the instant of `new Date(value)`, `none` if that
-- is no valid date.
pub record Runtime : Type 0 where
  pub to_number : Value → Number
  pub show : Number → String
  pub date_of : Value → Option ℕ

-- `a ?? b`
abbrev pub coalesce : Value → Value → Value
coalesce undefined b = b
coalesce null b = b
coalesce a b = a

-- `value === undefined || value === null`
abbrev pub is_nullish : Value → Bool
is_nullish undefined = true
is_nullish null = true
is_nullish _ = false

-- `value === undefined || value === null || value === ''`
abbrev pub is_absent : Value → Bool
is_absent undefined = true
is_absent null = true
is_absent (text s) = s == ""
is_absent _ = false

-- `String(value)`
abbrev pub to_text : Runtime → Value → String
to_text r undefined = "undefined"
to_text r null = "null"
to_text r (bool true) = "true"
to_text r (bool false) = "false"
to_text r (number n) = r.show n
to_text r (text s) = s
to_text r (other s) = s
