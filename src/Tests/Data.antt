-- ===== src/Tests/Data.antt =====
-- The tables, actors and conversions of the examples.
use mathlib.Core.Path.{subst}
use roadwisefleet.Prelude.{
  ◌≤◌, ◌<◌, String, ◌≡◌, refl, true, false, Option, none, some, List, [], ◌∷◌, ◌==◌, eq_iff, any,
  if◌then◌else◌, arith, Bool-cases, inl, inr,
}
use roadwisefleet.Js.{nan, plus, undefined, number, text, Fields, Runtime}
use roadwisefleet.Trip.Status.{
  TripStatus, draft, assigned, en_route, loaded, in_transit, at_delivery, delivered, includes,
  may_move, ◌===◌,
}
use roadwisefleet.Trip.Tables.{Trip, StatusEvent, Tables, Actor}
use roadwisefleet.Trip.Client.{matches}
use roadwisefleet.Trip.Walk.{phase}
use roadwisefleet.Trip.Rows.{count}
use roadwisefleet.Trip.Ingest.{Point}
use roadwisefleet.Trip.Sound.{IsSound, RowIsSound, assignments, follow, records_move}

-- A trip of organisation o1 without instants.
abbrev pub plain_trip : String → String → TripStatus → Trip
plain_trip id driver status = record {
  id = id;
  org_id = "o1";
  order_id = "q1";
  driver_id = some driver;
  truck_id = none;
  rate_eur = none;
  status = status;
  delivered_at = none;
  tracking = false;
  tracking_started_at = none;
}

-- Two drafts of driver d1, a delivered trip of d2, a tracked one of d3, and one of another
-- organisation.
abbrev pub draft_1 : Trip
draft_1 = plain_trip "t1" "d1" draft

abbrev pub draft_2 : Trip
draft_2 = plain_trip "t2" "d1" draft

abbrev pub done_trip : Trip
done_trip = record (plain_trip "t3" "d2" delivered) { delivered_at = some 5 }

abbrev pub moving_trip : Trip
moving_trip = record (plain_trip "t4" "d3" en_route) {
  tracking = true;
  tracking_started_at = some 7;
}

abbrev pub foreign_trip : Trip
foreign_trip = record (plain_trip "t5" "d9" assigned) { org_id = "o2" }

abbrev pub ready_trip : Trip
ready_trip = plain_trip "t6" "d4" assigned

abbrev event : String → TripStatus → TripStatus → StatusEvent
event id from to = record { trip_id = id; from_status = from; to_status = to; actor_id = none }

abbrev pub tables : Tables
tables = record {
  trips = draft_1 ∷ draft_2 ∷ done_trip ∷ moving_trip ∷ foreign_trip ∷ ready_trip ∷ [];
  events =
      event "t3" draft assigned
      ∷ event "t3" assigned loaded
      ∷ event "t3" loaded in_transit
      ∷ event "t4" draft assigned
      ∷ event "t3" in_transit at_delivery
      ∷ event "t4" assigned en_route
      ∷ event "t3" at_delivery delivered
      ∷ event "t5" draft assigned
      ∷ event "t6" draft assigned
      ∷ [];
  pings = [];
  orders = record { id = "q1"; org_id = "o1"; planned_at = none } ∷ [];
  users =
      record {
        id = "d1";
        org_id = "o1";
        name = some "Ann";
        role_id = "driver";
        locked_until = none;
      }
      ∷ [];
  trucks = record { id = "k1"; org_id = "o1" } ∷ [];
  documents = record { trip_id = "t3"; doc_type = "pod"; status = "UPLOADED" } ∷ [];
}

abbrev pub actor_of : String → List String → Option Actor
actor_of user ps = some (record { user_id = some user; permissions = some ps })

abbrev pub dispatcher : Option Actor
dispatcher = actor_of "u1" ("trip:*" ∷ [])

abbrev pub driver_actor : String → Option Actor
driver_actor user = actor_of user ("trip:status" ∷ [])

-- The conversions of numbers and dates, as far as the examples use them.
abbrev pub runtime : Runtime
runtime = record {
  to_number = λ v. elim v [ number n ↦ n | _ ↦ nan ];
  show = λ n. "n";
  date_of = λ v. none;
}

-- `{ orderId: "q1", driverId: "d1" }`
abbrev pub new_trip : Fields
new_trip key =
    if key == "orderId" then text "q1" else if key == "driverId" then text "d1" else undefined

abbrev pub point : String → Point
point id = record {
  client_id = id;
  lat = plus 52000000;
  lng = plus 13000000;
  at = some 9;
  accuracy_m = none;
}

other : (a b x : String) → (a == x) ≡ true → (b == a) ≡ false → (b == x) ≡ false
other a b x h k = subst (λ z. (b == z) ≡ false) ((eq_iff a x).0 h) k

single : (org_id driver : String) → assignments org_id driver tables.trips ≤ 1
unfolding assignments count matches includes
single org_id driver = elim (Bool-cases ("d9" == driver)) [
  | inl nine ↦
      rw
        (
          nine,
          other "d9" "d3" driver nine refl,
          other "d9" "d4" driver nine refl,
          other "d9" "d1" driver nine refl,
          other "d9" "d2" driver nine refl,
        )
        (ground arith)
  | inr no_nine ↦ elim (Bool-cases ("d3" == driver)) [
    | inl three ↦ rw (no_nine, three, other "d3" "d4" driver three refl) (ground arith)
    | inr no_three ↦ rw (no_nine, no_three) (ground arith)
  ]
]

-- A trip that is not tracked, and is before DELIVERED.
resting : (t : Trip) → t.tracking ≡ false → phase t.status < 7 → RowIsSound t
resting t h k = record {
  tracked_late = λ e. absurd (ground arith);
  tracked_early = λ e. absurd (ground arith);
  tracked_since = λ e. absurd (ground arith);
  delivered = λ e. absurd (omega arith);
}

done_row : RowIsSound done_trip
done_row = record {
  tracked_late = λ e. absurd (ground arith);
  tracked_early = λ e. absurd (ground arith);
  tracked_since = λ e. absurd (ground arith);
  delivered = λ _ _. refl;
}

moving_row : RowIsSound moving_trip
moving_row = record {
  tracked_late = λ e. omega arith;
  tracked_early = λ e. omega arith;
  tracked_since = λ e. refl;
  delivered = λ e. absurd (omega arith);
}

pub tables-IsSound : IsSound tables
unfolding any follow records_move may_move ◌===◌
tables-IsSound = record {
  unique = (refl, (refl, (refl, (refl, (refl, (refl, tt))))));
  single = λ org_id driver _. single org_id driver;
  rows = (
    resting draft_1 refl (omega arith),
    (
      resting draft_2 refl (omega arith),
      (
        done_row,
        (
          moving_row,
          (resting foreign_trip refl (omega arith), (resting ready_trip refl (omega arith), tt)),
        ),
      ),
    ),
  );
  timeline = (refl, (refl, (refl, (refl, (refl, (refl, tt))))));
}
