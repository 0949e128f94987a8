-- ===== src/Tests/Lists.antt =====
-- Examples on the filters of the list of trips.
use Prim.Native.Char.{code}
use Prim.Native.String.{[], ◌∷◌}
use roadwisefleet.Prelude.{
  ℕ, zero, suc, String, ◌≡◌, refl, ap, false, Option, none, some, List, eqb, ◌==◌, if◌then◌else◌,
}
use roadwisefleet.Prelude.Text.{trim, trim_start, trim_end}
use roadwisefleet.Js.{text}
use roadwisefleet.Share.Cuts.{is_empty, split}
use roadwisefleet.Trip.Status.{TripStatus, narrow, includes}
use roadwisefleet.Filters.Query.{
  Query, absent, one, many, Dates, TripFilters, parsed, has_shape, parse_trip_filters, query_of,
  serialize_trip_filters, as_array, add_entries, add_parts, push, nonblank, first_string,
  single_string, date_field, finish, is_reversed, is_too_long, units, parse_date,
}
use roadwisefleet.Filters.RoundTrip.{IsDates, parse_trip_filters-serialize}

-- Dates that are written as marks, one for each unit.
abbrev marks : ℕ → String
marks zero = "Z"
marks (suc n) = "T" ∷ marks n

abbrev longer : Option ℕ → Option ℕ
longer none = none
longer (some n) = some (suc n)

read_marks : String → Option ℕ
read_marks [] = none
read_marks (c ∷ s) =
    if eqb (code c) b'T' then longer (read_marks s) else if eqb (code c) b'Z' then some 0 else none

abbrev mark_dates : Dates
mark_dates = record { date_of = read_marks; iso = marks }

read_marks-marks : (n : ℕ) → read_marks (marks n) ≡ some n
unfolding read_marks
read_marks-marks zero = refl
read_marks-marks (suc n) = ap longer (read_marks-marks n)

marks-shape : (n : ℕ) → has_shape "dddd-dd-dd" (marks n) ≡ false
unfolding has_shape
marks-shape zero = refl
marks-shape (suc n) = refl

trim_end-marks : (n : ℕ) → trim_end (marks n) ≡ marks n
unfolding trim_end
trim_end-marks zero = refl
trim_end-marks (suc n) = ap (λ z. "T" ∷ z) (trim_end-marks n)

trim-marks : (n : ℕ) → trim (marks n) ≡ marks n
unfolding trim trim_start
trim-marks zero = trim_end-marks zero
trim-marks (suc n) = trim_end-marks (suc n)

marks-full : (n : ℕ) → is_empty (marks n) ≡ false
unfolding is_empty
marks-full zero = refl
marks-full (suc n) = refl

mark_dates-IsDates : IsDates mark_dates
mark_dates-IsDates = record {
  date_of-iso = read_marks-marks;
  shape-iso = marks-shape;
  trim-iso = trim-marks;
  full-iso = marks-full;
}

-- `?status=DRAFT,%20ASSIGNED,DRAFT&from=TTZ&q=%20Hull%20`
abbrev list_query : Query
list_query k =
    if k == "status"
    then one (text "DRAFT, ASSIGNED,DRAFT")
    else if k == "from"
    then one (text "TTZ")
    else if k == "q"
    then many (List.◌∷◌ (text " Hull ") List.[])
    else absent

abbrev list_filters : TripFilters
list_filters = record {
  statuses = List.◌∷◌ TripStatus.draft (List.◌∷◌ TripStatus.assigned List.[]);
  driver_id = none;
  from_date = some 2;
  to_date = none;
  q = some "Hull";
}

list_parsed : parse_trip_filters mark_dates list_query ≡ parsed list_filters
unfolding parse_trip_filters add_entries as_array add_parts split push trim trim_start trim_end
    is_empty narrow includes single_string first_string nonblank date_field finish is_reversed
    is_too_long units parse_date has_shape read_marks
list_parsed = refl

parse_trip_filters-serialize_example :
    parse_trip_filters mark_dates (query_of (serialize_trip_filters mark_dates list_filters))
    ≡ parsed list_filters
parse_trip_filters-serialize_example =
    parse_trip_filters-serialize mark_dates list_query list_filters mark_dates-IsDates list_parsed
