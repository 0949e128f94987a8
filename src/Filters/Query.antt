-- ===== src/Filters/Query.antt =====
-- From the query of a request to the filters, and back to texts: `parseTripFilters` and
-- `serializeTripFilters` of apps/api/src/trip-filters.js.
use Prim.Native.Char.{code}
use Prim.Native.String.{[], ◌∷◌, ◌++◌}
use roadwisefleet.Prelude.{
  ℕ, String, Bool, true, false, ◌&&◌, Option, none, some, List, leb, ltb, eqb, ◌==◌, ◌+◌,
  if◌then◌else◌,
}
use roadwisefleet.Prelude.Text.{trim}
use roadwisefleet.Js.{Value, text, is_nullish}
use roadwisefleet.Share.Cuts.{is_empty, split}
use roadwisefleet.Trip.Status.{TripStatus, name, narrow, includes}

-- What a key of the query holds: nothing, one value, or the values of a repeated key.
pub data QueryValue : Type 0 where
  absent : QueryValue
  one : Value → QueryValue
  many : List Value → QueryValue

abbrev pub Query : Type 0
Query = String → QueryValue

-- The built-in dates: the instant of `new Date(text)`, if it is valid, and `toISOString`.
pub record Dates : Type 0 where
  pub date_of : String → Option ℕ
  pub iso : ℕ → String

pub record TripFilters : Type 0 where
  pub statuses : List TripStatus
  pub driver_id : Option String
  pub from_date : Option ℕ
  pub to_date : Option ℕ
  pub q : Option String

pub data Parsed : Type 0 where
  invalid_filter : String → Parsed
  parsed : TripFilters → Parsed

abbrev pub max_query_length : ℕ
max_query_length = 80

-- `asArray(value)`
unfoldable pub as_array : QueryValue → List Value
as_array absent = List.[]
as_array (one v) = if is_nullish v then List.[] else List.◌∷◌ v List.[]
as_array (many vs) = vs

-- A trimmed text, if it is not empty
unfoldable pub nonblank : String → Option String
nonblank s = if is_empty (trim s) then none else some (trim s)

-- `singleString(value)`, of the values
unfoldable pub first_string : List Value → Option String
first_string List.[] = none
first_string (List.◌∷◌ (text s) vs) = nonblank s
first_string (List.◌∷◌ _ vs) = none

unfoldable pub single_string : QueryValue → Option String
unfolding as_array first_string
single_string v = first_string (as_array v)

-- A text of the shape, where `d` stands for a digit and another character for itself.
unfoldable pub has_shape : String → String → Bool
has_shape [] s = is_empty s
has_shape (p ∷ ps) [] = false
has_shape (p ∷ ps) (c ∷ s) =
    (if eqb (code p) b'd' then leb b'0' (code c) && leb (code c) b'9' else eqb (code p) (code c))
    && has_shape ps s

-- `parseDate(value, endOfDay)`
unfoldable pub parse_date : Dates → String → Bool → Option ℕ
parse_date d value end_of_day =
    if has_shape "dddd-dd-dd" value
    then d.date_of (value ++ (if end_of_day then "T23:59:59.999Z" else "T00:00:00.000Z"))
    else d.date_of value

-- `statuses.push(status)`
unfoldable pub push : List TripStatus → TripStatus → List TripStatus
push List.[] s = List.◌∷◌ s List.[]
push (List.◌∷◌ t ts) s = List.◌∷◌ t (push ts s)

-- The inner loop over the parts of an entry; `none` is the refusal of a status.
unfoldable pub add_parts : List String → List TripStatus → Option (List TripStatus)
add_parts List.[] acc = some acc
add_parts (List.◌∷◌ p ps) acc =
    if is_empty (trim p) then add_parts ps acc else elim (narrow (trim p)) [
      | none ↦ none
      | some s ↦ add_parts ps (if includes acc s then acc else push acc s)
    ]

-- The outer loop over the entries.
unfoldable pub add_entries : List Value → List TripStatus → Option (List TripStatus)
add_entries List.[] acc = some acc
add_entries (List.◌∷◌ (text s) vs) acc =
    elim (add_parts (List.◌∷◌ (split b',' s).0 (split b',' s).1) acc) [
      | none ↦ none
      | some more ↦ add_entries vs more
    ]
add_entries (List.◌∷◌ _ vs) acc = none

-- The date of a key: `none` if it is refused, `some none` if there is none.
unfoldable pub date_field : Dates → Bool → Option String → Option (Option ℕ)
date_field d end_of_day none = some none
date_field d end_of_day (some value) = elim (parse_date d value end_of_day) [
  | none ↦ none
  | some t ↦ some (some t)
]

-- `filters.from && filters.to && filters.from.getTime() > filters.to.getTime()`
unfoldable pub is_reversed : Option ℕ → Option ℕ → Bool
is_reversed (some a) (some b) = ltb b a
is_reversed _ _ = false

-- The length of a text in units of 16 bits
unfoldable pub units : String → ℕ
units [] = 0
units (c ∷ s) = (if leb 65536 (code c) then 2 else 1) + units s

unfoldable pub is_too_long : Option String → Bool
is_too_long none = false
is_too_long (some s) = ltb max_query_length (units s)

-- The checks behind the statuses and the dates.
unfoldable pub finish :
    List TripStatus → Option String → Option ℕ → Option ℕ → Option String → Parsed
finish ss driver from to q =
    if is_reversed from to
    then invalid_filter "range"
    else if is_too_long q
    then invalid_filter "q"
    else parsed
        (record { statuses = ss; driver_id = driver; from_date = from; to_date = to; q = q })

-- `parseTripFilters(query)`
unfoldable pub parse_trip_filters : Dates → Query → Parsed
parse_trip_filters d raw = elim (add_entries (as_array (raw "status")) List.[]) [
  | none ↦ invalid_filter "status"
  | some ss ↦ elim (date_field d false (single_string (raw "from"))) [
    | none ↦ invalid_filter "from"
    | some from ↦ elim (date_field d true (single_string (raw "to"))) [
      | none ↦ invalid_filter "to"
      | some to ↦ finish ss (single_string (raw "driverId")) from to (single_string (raw "q"))
    ]
  ]
]

-- `[s, ...ss].join(',')`
unfoldable pub join_names : TripStatus → List TripStatus → String
join_names s List.[] = name s
join_names s (List.◌∷◌ t ts) = name s ++ ("," ∷ join_names t ts)

unfoldable pub statuses_text : List TripStatus → Option String
statuses_text List.[] = none
statuses_text (List.◌∷◌ s ss) = some (join_names s ss)

unfoldable pub iso_text : Dates → Option ℕ → Option String
iso_text d none = none
iso_text d (some t) = some (d.iso t)

pub record FilterTexts : Type 0 where
  pub status : Option String
  pub driver_id : Option String
  pub from_date : Option String
  pub to_date : Option String
  pub q : Option String

-- A text that is not empty
unfoldable pub nonempty : Option String → Option String
nonempty none = none
nonempty (some s) = if is_empty s then none else some s

-- `serializeTripFilters(filters)`
unfoldable pub serialize_trip_filters : Dates → TripFilters → FilterTexts
serialize_trip_filters d f = record {
  status = statuses_text f.statuses;
  driver_id = nonempty f.driver_id;
  from_date = iso_text d f.from_date;
  to_date = iso_text d f.to_date;
  q = nonempty f.q;
}

abbrev pub value_or_absent : Option String → QueryValue
value_or_absent none = absent
value_or_absent (some s) = one (text s)

-- A query with those texts.
unfoldable pub query_of : FilterTexts → Query
query_of t key =
    if key == "status"
    then value_or_absent t.status
    else if key == "driverId"
    then value_or_absent t.driver_id
    else if key == "from"
    then value_or_absent t.from_date
    else if key == "to"
    then value_or_absent t.to_date
    else if key == "q"
    then value_or_absent t.q
    else absent
