-- ===== src/Trip/Memory.antt =====
-- An in-memory client, as the tests of the source use one: it shows that the documented behaviour
-- of the database can be met, and runs the examples.
mod FreshKey
use mathlib.Core.List.{Memᴰ}
use mathlib.Core.Path.{subst}
use roadwisefleet.Prelude.{
  ℕ, zero, suc, ◌+◌, String, ◌≡◌, refl, sym, ap, ◌∙◌, Bool, true, false, not, ◌&&◌, ◌||◌, Option,
  none, some, List, [], ◌∷◌, ◌++◌, map, ◌==◌, eq_iff, any, find, arith, Bool-cases, inl, inr,
  if◌then◌else◌,
}
use roadwisefleet.Trip.Status.{draft}
use roadwisefleet.Trip.Tables.{
  Instant, Trip, Order, User, Truck, Document, StatusEvent, GpsPing, Tables, TripWhere, TripData,
  TripUpdate,
}
use roadwisefleet.Trip.Client.{
  TripsClient, IsLawful, matches, updated, update_row, has_id, document_matches, insert_new,
}
use roadwisefleet.Trip.Rows.{count}
use FreshKey.{fresh_key, fresh_key_trips, fresh_key_events}

new_row : String → TripData → Trip
new_row id x = record {
  id = id;
  org_id = x.org_id;
  order_id = x.order_id;
  driver_id = x.driver_id;
  truck_id = x.truck_id;
  rate_eur = x.rate_eur;
  status = x.status;
  delivered_at = none;
  tracking = false;
  tracking_started_at = none;
}

-- What the client returns of an update that found no row; no request makes one.
no_row : Trip
no_row = record {
  id = "";
  org_id = "";
  order_id = "";
  driver_id = none;
  truck_id = none;
  rate_eur = none;
  status = draft;
  delivered_at = none;
  tracking = false;
  tracking_started_at = none;
}

row_after : TripUpdate → Option Trip → Trip
row_after u none = no_row
row_after u (some t) = updated u t

set_plan : String → Instant → Order → Order
set_plan id at o = if o.id == id then record o { planned_at = some at } else o

unfoldable pub memory : TripsClient
unfolding find count matches updated insert_new new_row no_row row_after set_plan fresh_key any
memory = record {
  find_trip = λ w d. find (matches w) d.trips;
  find_order = λ id org d. find (λ o. o.id == id && o.org_id == org) d.orders;
  find_user = λ id org d. find (λ u. u.id == id && u.org_id == org) d.users;
  find_truck = λ id org d. find (λ t. t.id == id && t.org_id == org) d.trucks;
  count_documents = λ id types statuses d. count (document_matches id types statuses) d.documents;
  create_trip =
      λ x d. let t = new_row (fresh_key d) x in (t, record d { trips = d.trips ++ t ∷ [] });
  update_trip = λ id u d.
      (row_after u (find (has_id id) d.trips), record d { trips = map (update_row id u) d.trips });
  update_order = λ id at d. record d { orders = map (set_plan id at) d.orders };
  create_event = λ e d. record d { events = d.events ++ e ∷ [] };
  create_pings = λ ps d. let w = insert_new ps d.pings in (w.0, record d { pings = w.1 });
}

find_Mem {ℓ} :
    {A : Type ℓ} (p : A → Bool) (xs : List A) {x : A}
    → find p xs ≡ some x
    → Memᴰ x xs × (p x ≡ true)
unfolding find
find_Mem p [] h = absurd (ground arith)
find_Mem p (y ∷ xs) {x} h = elim (Bool-cases (p y)) [
  | inl hit ↦ (let e : y ≡ x = ground arith in (Memᴰ.head (sym e), subst (λ z. p z ≡ true) e hit))
  | inr miss ↦ let (m, k) = find_Mem p xs {x = x} (ground arith) in (Memᴰ.tail m, k)
]

find-none {ℓ} : {A : Type ℓ} (p : A → Bool) (xs : List A) → find p xs ≡ none → any p xs ≡ false
unfolding find any
find-none p [] h = refl
find-none p (y ∷ xs) h = ground (arith, find-none p xs)

count_pos {ℓ} :
    {A : Type ℓ} (p : A → Bool) (xs : List A) {n : ℕ} → count p xs ≡ suc n → any p xs ≡ true
unfolding count any
count_pos p [] h = absurd (omega arith)
count_pos p (y ∷ xs) {n} h = ground (arith, count_pos p xs {n = n})

pub memory-IsLawful : IsLawful memory
unfolding memory
memory-IsLawful = record {
  find_trip_some = λ w d t h. find_Mem (matches w) d.trips h;
  find_trip_none = λ w d h. find-none (matches w) d.trips h;
  count_documents_pos =
      λ id types statuses d n h. count_pos (document_matches id types statuses) d.documents h;
  create_trip_row = λ x d. (refl, refl, refl, refl, refl, refl, refl, refl);
  create_trip_fresh = λ x d. (fresh_key_trips d, fresh_key_events d);
  create_trip_tables = λ x d. refl;
  update_trip_row = λ id u d t h. rw h;
  update_trip_tables = λ id u d. refl;
  update_order_tables = λ id at d. refl;
  create_event_tables = λ e d. refl;
  create_pings_lem = λ ps d. refl;
}
