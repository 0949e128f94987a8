-- ===== src/Trip/Client.antt =====
-- The database client that the trip requests take as their argument `prisma`: a library that is
-- not part of the repository. `TripsClient` has the calls that the source makes, and `IsLawful`
-- the documented behaviour of those calls that the source relies on.
use mathlib.Core.List.{Memᴰ}
use roadwisefleet.Prelude.{
  ℕ, suc, String, ◌≡◌, Bool, true, false, not, ◌&&◌, Option, none, some, List, [], ◌∷◌, ◌++◌, map,
  ◌==◌, same, any, find, if◌then◌else◌, or_else,
}
use roadwisefleet.Trip.Status.{TripStatus, includes}
use roadwisefleet.Trip.Tables.{
  Instant, Trip, Order, User, Truck, Document, StatusEvent, GpsPing, Tables, TripWhere, TripData,
  TripUpdate,
}

pub record TripsClient : Type 0 where
  -- `trip.findFirst({ where })`
  pub find_trip : TripWhere → Tables → Option Trip
  -- `order.findFirst({ where: { id, customer: { orgId } } })`, `user` and `truck` by id and org
  pub find_order : String → String → Tables → Option Order
  pub find_user : String → String → Tables → Option User
  pub find_truck : String → String → Tables → Option Truck
  -- `document.count({ where: { tripId, docType: { in }, status: { in } } })`
  pub count_documents : String → List String → List String → Tables → ℕ
  pub create_trip : TripData → Tables → Trip × Tables
  pub update_trip : String → TripUpdate → Tables → Trip × Tables
  pub update_order : String → Instant → Tables → Tables
  pub create_event : StatusEvent → Tables → Tables
  -- `gpsPing.createMany({ data, skipDuplicates: true })`: the count, and the tables
  pub create_pings : List GpsPing → Tables → ℕ × Tables

abbrev key_is : Option String → String → Bool
key_is none s = true
key_is (some k) s = s == k

abbrev key_is_not : Option String → String → Bool
key_is_not none s = true
key_is_not (some k) s = not (s == k)

abbrev driver_is : Option String → Option String → Bool
driver_is none d = true
driver_is (some k) d = same d (some k)

abbrev status_is : Option (List TripStatus) → TripStatus → Bool
status_is none s = true
status_is (some ss) s = includes ss s

-- The rows that a `where` selects.
unfoldable pub matches : TripWhere → Trip → Bool
matches w t =
    key_is w.id t.id
    && t.org_id == w.org_id
    && driver_is w.driver_id t.driver_id
    && status_is w.status_in t.status
    && key_is_not w.id_not t.id

abbrev pub given {ℓ} : {A : Type ℓ} → Option A → A → A
given none a = a
given (some b) a = b

-- A row after an update.
unfoldable pub updated : TripUpdate → Trip → Trip
updated u t = record t {
  status = given u.status t.status;
  driver_id = or_else u.driver_id t.driver_id;
  delivered_at = or_else u.delivered_at t.delivered_at;
  tracking = given u.tracking t.tracking;
  tracking_started_at = or_else u.tracking_started_at t.tracking_started_at;
}

abbrev pub has_id : String → Trip → Bool
has_id id t = t.id == id

abbrev pub update_row : String → TripUpdate → Trip → Trip
update_row id u t = if has_id id t then updated u t else t

abbrev pub document_matches : String → List String → List String → Document → Bool
document_matches trip_id types statuses d =
    d.trip_id == trip_id && any (λ s. d.doc_type == s) types && any (λ s. d.status == s) statuses

-- The unique index of the pings.
abbrev pub same_ping : GpsPing → GpsPing → Bool
same_ping p q = p.trip_id == q.trip_id && p.client_id == q.client_id

-- The rows of a batch that are written where the index skips duplicates: their number, and the
-- pings with them.
unfoldable pub insert_new : List GpsPing → List GpsPing → ℕ × List GpsPing
insert_new [] kept = (0, kept)
insert_new (p ∷ ps) kept = elim (any (same_ping p) kept) [
  | true ↦ insert_new ps kept
  | false ↦ let (n, all) = insert_new ps (kept ++ p ∷ []) in (suc n, all)
]

pub record IsLawful (c : TripsClient) : Type 0 where
  pub find_trip_some :
      (w : TripWhere) (d : Tables) (t : Trip)
      → c.find_trip w d ≡ some t
      → Memᴰ t d.trips × (matches w t ≡ true)
  pub find_trip_none :
      (w : TripWhere) (d : Tables) → c.find_trip w d ≡ none → any (matches w) d.trips ≡ false
  pub count_documents_pos :
      (id : String) (types statuses : List String) (d : Tables) (n : ℕ)
      → c.count_documents id types statuses d ≡ suc n
      → any (document_matches id types statuses) d.documents ≡ true
  pub create_trip_row :
      (x : TripData) (d : Tables)
      → let t = (c.create_trip x d).0 in
        (t.org_id ≡ x.org_id)
        × (t.order_id ≡ x.order_id)
        × (t.driver_id ≡ x.driver_id)
        × (t.truck_id ≡ x.truck_id)
        × (t.status ≡ x.status)
        × (t.delivered_at ≡ none)
        × (t.tracking ≡ false)
        × (t.tracking_started_at ≡ none)
  pub create_trip_fresh :
      (x : TripData) (d : Tables)
      → let t = (c.create_trip x d).0 in
        (any (has_id t.id) d.trips ≡ false) × (any (λ e. e.trip_id == t.id) d.events ≡ false)
  pub create_trip_tables :
      (x : TripData) (d : Tables)
      → (c.create_trip x d).1 ≡ record d { trips = d.trips ++ (c.create_trip x d).0 ∷ [] }
  pub update_trip_row :
      (id : String) (u : TripUpdate) (d : Tables) (t : Trip)
      → find (has_id id) d.trips ≡ some t
      → (c.update_trip id u d).0 ≡ updated u t
  pub update_trip_tables :
      (id : String) (u : TripUpdate) (d : Tables)
      → (c.update_trip id u d).1 ≡ record d { trips = map (update_row id u) d.trips }
  -- an order's plan changes nothing but the orders
  pub update_order_tables :
      (id : String) (at : Instant) (d : Tables)
      → c.update_order id at d ≡ record d { orders = (c.update_order id at d).orders }
  pub create_event_tables :
      (e : StatusEvent) (d : Tables) → c.create_event e d ≡ record d { events = d.events ++ e ∷ [] }
  pub create_pings_lem :
      (ps : List GpsPing) (d : Tables)
      → c.create_pings ps d
        ≡ ((insert_new ps d.pings).0, record d { pings = (insert_new ps d.pings).1 })
