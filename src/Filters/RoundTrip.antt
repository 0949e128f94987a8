-- ===== src/Filters/RoundTrip.antt =====
-- The filters that the server says it applied are read back as the same filters
-- (apps/api/src/trip-filters.js).
use roadwisefleet.Prelude.{
  ℕ, String, ◌≡◌, refl, sym, ap, ◌∙◌, Bool, true, false, inl, inr, Option, none, some, List, arith,
  if◌then◌else◌, Bool-cases, Option-cases,
}
use roadwisefleet.Prelude.Text.{trim}
use roadwisefleet.Prelude.Trimmed.{trim-trim}
use roadwisefleet.Js.{Value, text, undefined, null, bool, number, other}
use roadwisefleet.Share.Cuts.{is_empty}
use roadwisefleet.Trip.Status.{TripStatus}
use roadwisefleet.Filters.Query.{
  QueryValue, Query, Dates, TripFilters, parsed, as_array, nonblank, first_string, single_string,
  has_shape, parse_date, add_entries, date_field, is_reversed, is_too_long, finish,
  parse_trip_filters, iso_text, nonempty, serialize_trip_filters, value_or_absent, query_of,
}
use roadwisefleet.Filters.Statuses.{IsFresh, add_entries-IsFresh, add_entries-statuses_text}

-- The documented behaviour of `toISOString`: a text without white space around it that is longer
-- than a day's, and that the date constructor reads as the same instant.
pub record IsDates (d : Dates) : Type 0 where
  pub date_of-iso : (t : ℕ) → d.date_of (d.iso t) ≡ some t
  pub shape-iso : (t : ℕ) → has_shape "dddd-dd-dd" (d.iso t) ≡ false
  pub trim-iso : (t : ℕ) → trim (d.iso t) ≡ d.iso t
  pub full-iso : (t : ℕ) → is_empty (d.iso t) ≡ false

-- A text that is trimmed and not empty, if there is one.
abbrev IsPlain : Option String → Type 0
IsPlain none = Unit
IsPlain (some s) = (trim s ≡ s) × (is_empty s ≡ false)

nonblank-IsPlain : (s : String) → IsPlain (nonblank s)
unfolding nonblank
nonblank-IsPlain s = choose (is_empty (trim s)) (λ h. h)
  where
    choose :
        (b : Bool)
        → (b ≡ false → is_empty (trim s) ≡ false)
        → IsPlain (if b then none else some (trim s))
    choose true h = tt
    choose false h = (trim-trim s, h refl)

first_string-IsPlain : (vs : List Value) → IsPlain (first_string vs)
unfolding first_string
first_string-IsPlain List.[] = tt
first_string-IsPlain (List.◌∷◌ (text s) vs) = nonblank-IsPlain s
first_string-IsPlain (List.◌∷◌ undefined vs) = tt
first_string-IsPlain (List.◌∷◌ null vs) = tt
first_string-IsPlain (List.◌∷◌ (bool b) vs) = tt
first_string-IsPlain (List.◌∷◌ (number n) vs) = tt
first_string-IsPlain (List.◌∷◌ (other s) vs) = tt

nonblank-plain : (s : String) → trim s ≡ s → is_empty s ≡ false → nonblank s ≡ some s
unfolding nonblank
nonblank-plain s h g = rw (h, g) refl

single_string-text : (s : String) → single_string (value_or_absent (some s)) ≡ nonblank s
unfolding single_string as_array first_string
single_string-text s = refl

single_string-absent : single_string (value_or_absent none) ≡ none
unfolding single_string as_array first_string
single_string-absent = refl

single_string-IsPlain : (v : QueryValue) → IsPlain (single_string v)
unfolding single_string
single_string-IsPlain v = first_string-IsPlain (as_array v)

read_back : (o : Option String) → IsPlain o → single_string (value_or_absent (nonempty o)) ≡ o
unfolding nonempty
read_back none h = single_string-absent
read_back (some s) (h, g) = rw g (single_string-text s ∙ nonblank-plain s h g)

parse_date-plain :
    (d : Dates) (end_of_day : Bool) (s : String)
    → has_shape "dddd-dd-dd" s ≡ false
    → parse_date d s end_of_day ≡ d.date_of s
unfolding parse_date
parse_date-plain d end_of_day s h = rw h refl

date_field-some :
    (d : Dates) (end_of_day : Bool) (s : String) (t : ℕ)
    → parse_date d s end_of_day ≡ some t
    → date_field d end_of_day (some s) ≡ some (some t)
unfolding date_field
date_field-some d end_of_day s t h = ground (arith, h)

abbrev filters_of :
    List TripStatus → Option String → Option ℕ → Option ℕ → Option String → TripFilters
filters_of ss driver from to q = record {
  statuses = ss;
  driver_id = driver;
  from_date = from;
  to_date = to;
  q = q;
}

date_back :
    (d : Dates) (end_of_day : Bool) (o : Option ℕ)
    → IsDates d
    → date_field d end_of_day (single_string (value_or_absent (iso_text d o))) ≡ some o
unfolding iso_text date_field
date_back d end_of_day none laws = ap (date_field d end_of_day) single_string-absent
date_back d end_of_day (some t) laws =
    ap (date_field d end_of_day)
      (single_string-text (d.iso t) ∙ nonblank-plain (d.iso t) (laws.trim-iso t) (laws.full-iso t))
    ∙ date_field-some d end_of_day (d.iso t) t
        (parse_date-plain d end_of_day (d.iso t) (laws.shape-iso t) ∙ laws.date_of-iso t)

is_same : (f g : TripFilters) → parsed g ≡ parsed f → f ≡ g
is_same f g e = cc e

finish-parts :
    (ss : List TripStatus) (driver : Option String) (from to : Option ℕ) (q : Option String)
    (f : TripFilters)
    → finish ss driver from to q ≡ parsed f
    → (f ≡ filters_of ss driver from to q) × (is_reversed from to ≡ false) × (is_too_long q ≡ false)
unfolding finish
finish-parts ss driver from to q f h = elim (Bool-cases (is_reversed from to)) [
  | inl reversed ↦ absurd (ground (arith, h, reversed))
  | inr ordered ↦ elim (Bool-cases (is_too_long q)) [
    | inl long ↦ absurd (ground (arith, h, ordered, long))
    | inr short ↦
        let e : parsed (filters_of ss driver from to q) ≡ parsed f =
          ground (arith, h, ordered, short) in
        (is_same f (filters_of ss driver from to q) e, ordered, short)
  ]
]

parse_trip_filters-from :
    (d : Dates) (raw : Query) (ss : List TripStatus) (from to : Option ℕ)
    → add_entries (as_array (raw "status")) List.[] ≡ some ss
    → date_field d false (single_string (raw "from")) ≡ some from
    → date_field d true (single_string (raw "to")) ≡ some to
    → parse_trip_filters d raw
      ≡ finish ss (single_string (raw "driverId")) from to (single_string (raw "q"))
unfolding parse_trip_filters
parse_trip_filters-from d raw ss from to h g k = ground (arith, h, g, k)

parse_trip_filters-parts :
    (d : Dates) (raw : Query) (f : TripFilters)
    → parse_trip_filters d raw ≡ parsed f
    → (ss : List TripStatus) × (from : Option ℕ) × (to : Option ℕ) × (add_entries
          (as_array (raw "status"))
          List.[]
        ≡ some ss)
      × (finish ss (single_string (raw "driverId")) from to (single_string (raw "q")) ≡ parsed f)
unfolding parse_trip_filters
parse_trip_filters-parts d raw f h =
    elim (Option-cases (add_entries (as_array (raw "status")) List.[])) [
      | inl bad ↦ absurd (ground (arith, h, bad))
      | inr (ss, e) ↦ elim (Option-cases (date_field d false (single_string (raw "from")))) [
        | inl bad ↦ absurd (ground (arith, h, e, bad))
        | inr (from, g) ↦ elim (Option-cases (date_field d true (single_string (raw "to")))) [
          | inl bad ↦ absurd (ground (arith, h, e, g, bad))
          | inr (to, k) ↦
              (ss, from, to, e, sym (parse_trip_filters-from d raw ss from to e g k) ∙ h)
        ]
      ]
    ]

serialized :
    (d : Dates) (ss : List TripStatus) (driver : Option String) (from to : Option ℕ)
    (q : Option String)
    → IsDates d
    → IsFresh List.[] ss
    → IsPlain driver
    → IsPlain q
    → parse_trip_filters d (query_of (serialize_trip_filters d (filters_of ss driver from to q)))
      ≡ finish ss driver from to q
unfolding query_of serialize_trip_filters
serialized d ss driver from to q laws fresh plain plain' =
    parse_trip_filters-from d (query_of (serialize_trip_filters d (filters_of ss driver from to q)))
      ss from to (add_entries-statuses_text ss fresh) (date_back d false from laws)
      (date_back d true to laws)
    ∙ ap (λ z. finish ss z from to (single_string (value_or_absent (nonempty q))))
        (read_back driver plain)
    ∙ ap (λ z. finish ss driver from to z) (read_back q plain')

-- If a query is accepted, then the texts of its filters are accepted as a query, and give the same
-- filters: what the server says it applied is what a client gets by sending it back.
pub parse_trip_filters-serialize :
    (d : Dates) (raw : Query) (f : TripFilters)
    → IsDates d
    → parse_trip_filters d raw ≡ parsed f
    → parse_trip_filters d (query_of (serialize_trip_filters d f)) ≡ parsed f
parse_trip_filters-serialize d raw f laws h =
    let (ss, from, to, e, ends) = parse_trip_filters-parts d raw f h in
    let driver = single_string (raw "driverId") in
    let q = single_string (raw "q") in
    let (is, ordered, short) = finish-parts ss driver from to q f ends in
    ap (λ z. parse_trip_filters d (query_of (serialize_trip_filters d z))) is
    ∙ serialized d ss driver from to q laws
        (add_entries-IsFresh (as_array (raw "status")) List.[] ss tt e)
        (single_string-IsPlain (raw "driverId")) (single_string-IsPlain (raw "q"))
    ∙ ends
