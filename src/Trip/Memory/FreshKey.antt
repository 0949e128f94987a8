-- ===== src/Trip/Memory/FreshKey.antt =====
-- A key that no row has: a text longer than every key.
use Prim.Native.Nat.{max}
use Prim.Native.String.{[], ◌∷◌}
use mathlib.Core.List.{List}
use roadwisefleet.Prelude.{
  ℕ, zero, suc, ◌<◌, String, ◌≡◌, refl, ap, false, ◌==◌, eq_iff, any, arith, Bool-cases, inl, inr,
}
use roadwisefleet.Trip.Tables.{Trip, StatusEvent, Tables}
use roadwisefleet.Trip.Client.{has_id}

unfoldable pub size : String → ℕ
size [] = 0
size (c ∷ s) = suc (size s)

unfoldable pub long : ℕ → String
long zero = []
long (suc n) = "k" ∷ long n

size-long : (n : ℕ) → size (long n) ≡ n
unfolding size long
size-long zero = refl
size-long (suc n) = ap suc (size-long n)

module _ {A : Type 0} (key : A → String) where
  -- The size of the longest key.
  unfoldable pub longest : List A → ℕ
  unfolding size
  longest List.[] = 0
  longest (List.◌∷◌ x xs) = max (size (key x)) (longest xs)

  longer_is_new : (xs : List A) (n : ℕ) → longest xs < n → any (λ x. key x == long n) xs ≡ false
  unfolding longest any
  longer_is_new List.[] n h = refl
  longer_is_new (List.◌∷◌ x xs) n h = elim (Bool-cases (key x == long n)) [
    | inl same ↦ absurd (omega (arith, ap size ((eq_iff (key x) (long n)).0 same), size-long n))
    | inr other ↦ rw other (longer_is_new xs n (omega arith))
  ]

abbrev above_all : Tables → ℕ
above_all d =
    suc (
      max (longest (λ (t : Trip). t.id) d.trips)
        (longest (λ (e : StatusEvent). e.trip_id) d.events))

-- The key of a new trip.
unfoldable pub fresh_key : Tables → String
unfolding longest long
fresh_key d = long (above_all d)

pub fresh_key_trips : (d : Tables) → any (has_id (fresh_key d)) d.trips ≡ false
unfolding fresh_key
fresh_key_trips d = longer_is_new (λ (t : Trip). t.id) d.trips (above_all d) (omega arith)

pub fresh_key_events : (d : Tables) → any (λ e. e.trip_id == fresh_key d) d.events ≡ false
unfolding fresh_key
fresh_key_events d =
    longer_is_new (λ (e : StatusEvent). e.trip_id) d.events (above_all d) (omega arith)
