-- ===== src/Trip/Tables.antt =====
-- The rows that the trip requests read and write, with the columns that they use, as
-- apps/api/src/trips-core.js, trip-assignment.js, trip-detail.js and documents.js name them.
-- An instant counts the milliseconds since the earliest date of the language.
use roadwisefleet.Prelude.{
  ℕ, String, ◌≡◌, refl, ◌⊎◌, inl, inr, Bool, true, false, Option, none, some, List, ◌==◌,
  if◌then◌else◌,
}
use roadwisefleet.Js.{Number}
use roadwisefleet.Trip.Status.{TripStatus}

abbrev pub Instant : Type 0
Instant = ℕ

pub record Trip : Type 0 where
  pub id : String
  pub org_id : String
  pub order_id : String
  pub driver_id : Option String
  pub truck_id : Option String
  pub rate_eur : Option Number
  pub status : TripStatus
  pub delivered_at : Option Instant
  pub tracking : Bool
  pub tracking_started_at : Option Instant

-- An order; `org_id` is that of its customer.
pub record Order : Type 0 where
  pub id : String
  pub org_id : String
  pub planned_at : Option Instant

pub record User : Type 0 where
  pub id : String
  pub org_id : String
  pub name : Option String
  pub role_id : String
  pub locked_until : Option Instant

pub record Truck : Type 0 where
  pub id : String
  pub org_id : String

pub record Document : Type 0 where
  pub trip_id : String
  pub doc_type : String
  pub status : String

pub record StatusEvent : Type 0 where
  pub trip_id : String
  pub from_status : TripStatus
  pub to_status : TripStatus
  pub actor_id : Option String

pub record GpsPing : Type 0 where
  pub trip_id : String
  pub client_id : String
  pub at : Option Instant
  pub lat : Number
  pub lng : Number
  pub accuracy_m : Option ℕ

pub record Tables : Type 0 where
  pub trips : List Trip
  pub events : List StatusEvent
  pub pings : List GpsPing
  pub orders : List Order
  pub users : List User
  pub trucks : List Truck
  pub documents : List Document

-- A `where` of the trip queries; an absent key is `none`.
pub record TripWhere : Type 0 where
  pub id : Option String
  pub org_id : String
  pub driver_id : Option String
  pub status_in : Option (List TripStatus)
  pub id_not : Option String

-- The `data` of `trip.create`.
pub record TripData : Type 0 where
  pub org_id : String
  pub order_id : String
  pub driver_id : Option String
  pub truck_id : Option String
  pub rate_eur : Option Number
  pub status : TripStatus

-- The `data` of `trip.update`: a key that is `none` leaves its column alone.
pub record TripUpdate : Type 0 where
  pub status : Option TripStatus
  pub driver_id : Option String
  pub delivered_at : Option Instant
  pub tracking : Option Bool
  pub tracking_started_at : Option Instant

abbrev pub no_update : TripUpdate
no_update = record {
  status = none;
  driver_id = none;
  delivered_at = none;
  tracking = none;
  tracking_started_at = none;
}

pub record Actor : Type 0 where
  pub user_id : Option String
  pub permissions : Option (List String)

-- `actor?.userId` and `actor?.permissions`
abbrev pub actor_user : Option Actor → Option String
actor_user none = none
actor_user (some a) = a.user_id

abbrev pub actor_permissions : Option Actor → Option (List String)
actor_permissions none = none
actor_permissions (some a) = a.permissions

-- A string as a condition: null and the empty string count as false.
abbrev pub truthy : Option String → Option String
truthy none = none
truthy (some s) = if s == "" then none else some s

-- Refusals, with what the source returns beside the code.
pub data Refusal : Type 0 where
  forbidden not_found order_not_found driver_not_found truck_not_found : Refusal
  invalid_status pod_required driver_busy trip_closed already_assigned : Refusal
  driver_unavailable tracking_off no_org : Refusal
  invalid_input : String → Refusal
  invalid_transition : TripStatus → TripStatus → Refusal

pub data Reply {ℓ} (A : Type ℓ) : Type ℓ where
  ok : A → Reply A
  refuse : Refusal → Reply A

infixl 5 ◌>>=◌ ◌>>◌
abbrev pub ◌>>=◌ {ℓ κ} : {A : Type ℓ} {B : Type κ} → Reply A → (A → Reply B) → Reply B
ok a >>= f = f a
refuse e >>= f = refuse e

abbrev pub ◌>>◌ {ℓ} : {B : Type ℓ} → Reply (Unit {0}) → Reply B → Reply B
m >> k = m >>= λ _. k

-- `if (b) return { ok: false, error }`
abbrev pub refuse_if : Bool → Refusal → Reply (Unit {0})
refuse_if true e = refuse e
refuse_if false e = ok tt

-- `if (!row) return { ok: false, error }`
abbrev pub found {ℓ} : {A : Type ℓ} → Option A → Refusal → Reply A
found none e = refuse e
found (some a) e = ok a

pub Reply-cases {ℓ} :
    {A : Type ℓ} (r : Reply A) → ((e : Refusal) × (r ≡ refuse e)) ⊎ ((a : A) × (r ≡ ok a))
Reply-cases (ok a) = inr (a, refl)
Reply-cases (refuse e) = inl (e, refl)
