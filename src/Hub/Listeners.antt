-- ===== src/Hub/Listeners.antt =====
-- `createGpsHub` of apps/api/src/gps-stream.js. A listener is a function, known to the hub by its
-- identity, a number. The map is a list of entries in the order of insertion, and so is a set.
use roadwisefleet.Prelude.{
  ℕ, String, Bool, true, false, not, Option, none, some, List, [], ◌∷◌, ◌++◌, map, ◌==◌, eqb,
  filter, any, length, if◌then◌else◌,
}

pub record Entry : Type 0 where
  pub trip_id : String
  pub listeners : List ℕ

-- `listeners.get(tripId)`
unfoldable pub get : String → List Entry → Option (List ℕ)
get t [] = none
get t (e ∷ es) = if e.trip_id == t then some e.listeners else get t es

-- `listeners.set(tripId, set)`: in the place of an entry of that key, else at the end.
unfoldable pub put : String → List ℕ → List Entry → List Entry
put t s [] = record { trip_id = t; listeners = s } ∷ []
put t s (e ∷ es) =
    if e.trip_id == t then record { trip_id = t; listeners = s } ∷ es else e ∷ put t s es

-- `listeners.delete(tripId)`
unfoldable pub drop_key : String → List Entry → List Entry
drop_key t = filter (λ e. not (e.trip_id == t))

-- `set.has(listener)`, `set.add(listener)` and `set.delete(listener)`
unfoldable pub has : ℕ → List ℕ → Bool
has l = any (λ k. eqb k l)

unfoldable pub add : ℕ → List ℕ → List ℕ
add l s = if has l s then s else s ++ l ∷ []

unfoldable pub remove : ℕ → List ℕ → List ℕ
remove l = filter (λ k. not (eqb k l))

-- What `subscribe` returns: the closure, with its flag.
pub record Handle : Type 0 where
  pub trip_id : String
  pub listener : ℕ
  pub active : Bool

-- `listeners.get(tripId)`, or the new set.
abbrev pub set_of : String → List Entry → List ℕ
set_of t es = elim (get t es) [ none ↦ [] | some s ↦ s ]

-- `subscribe(tripId, listener)`
unfoldable pub subscribe : String → ℕ → List Entry → Handle × List Entry
subscribe t l es =
    (record { trip_id = t; listener = l; active = true }, put t (add l (set_of t es)) es)

-- The entry of a trip after a listener was taken out; an empty set goes.
unfoldable pub put_back : String → List ℕ → List Entry → List Entry
put_back t [] es = drop_key t es
put_back t (l ∷ s) es = put t (l ∷ s) es

-- A call of the closure that `subscribe` returned.
unfoldable pub unsubscribe : Handle → List Entry → Handle × List Entry
unsubscribe h es = if not h.active then (h, es) else (
  record h { active = false },
  elim (get h.trip_id es) [ none ↦ es | some s ↦ put_back h.trip_id (remove h.listener s) es ],
)

-- A listener's call changes the world, and may throw.
pub record Outcome {ℓ} (W : Type ℓ) : Type ℓ where
  pub world : W
  pub threw : Bool

module _ {ℓ} {W : Type ℓ} (call : ℕ → W → Outcome W) where
  -- The loop of `publish`: what a listener throws is caught.
  unfoldable pub deliver : List ℕ → W → W
  deliver [] w = w
  deliver (l ∷ ls) w = deliver ls (call l w).world

  -- `publish(tripId, point)`, where `call` hands the point over.
  unfoldable pub publish : String → List Entry → W → W
  publish t es w = elim (get t es) [ none ↦ w | some s ↦ deliver s w ]

-- `subscriberCount(tripId)` and `activeTrips()`
unfoldable pub subscriber_count : String → List Entry → ℕ
subscriber_count t es = length (set_of t es)

unfoldable pub active_trips : List Entry → List String
active_trips es = map (λ (e : Entry). e.trip_id) es
