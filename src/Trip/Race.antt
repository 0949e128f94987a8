-- ===== src/Trip/Race.antt =====
-- Two requests at once: `transitionTrip` (apps/api/src/trips-core.js) reads before its transaction,
-- so another request may commit between the two.
use mathlib.Core.List.{Memᴰ}
use roadwisefleet.Prelude.{
  ◌≤◌, String, ◌≡◌, ◌≢◌, refl, sym, ap, true, Option, none, some, map, eq_iff, arith, inl, inr,
  Option-cases,
}
use roadwisefleet.Auth.Permissions.{has_permission, can_transition_trip}
use roadwisefleet.Trip.Status.{draft, assigned, may_move, name, includes}
use roadwisefleet.Trip.Disruption.{requires_carrier_actor}
use roadwisefleet.Trip.Tables.{Instant, Trip, Tables, Actor, actor_permissions, truthy, ok}
use roadwisefleet.Trip.Client.{TripsClient, IsLawful, matches, updated, update_row}
use roadwisefleet.Trip.Requests.{
  active_of, Move, update_data, check_transition, commit_transition, double_books,
  driver_has_active_trip,
}
use roadwisefleet.Trip.Rows.{
  bit, id-updated, count-update, count_of_Mem, others, Unique-update, Mem-update, Mem-update_self,
}
use roadwisefleet.Trip.Lifecycle.{narrow-name}
use roadwisefleet.Trip.Sound.Lookup.{find_by_id}
use roadwisefleet.Trip.Sound.{IsSound, assignments}
use roadwisefleet.Trip.Sound.Allowed.{IsAllowed-check_transition}

anywhere :
    (org_id driver : String) (exclude : Option String) (t : Trip)
    → matches (active_of org_id driver exclude) t ≡ true
    → matches (active_of org_id driver none) t ≡ true
unfolding matches
anywhere org_id driver exclude t h = ground arith

-- Both requests are checked in `d`; then the first commits, and then the second.
unfoldable pub both_committed :
    TripsClient → Tables → String → Move → String → Move → Option Actor → Instant → Tables
both_committed c d id m id' m' actor now =
    (commit_transition c (commit_transition c d id m actor now).1 id' m' actor now).1

-- A DRAFT of the driver, as the move to ASSIGNED needs it.
pub record IsDraftOf (d : Tables) (org_id driver : String) (t : Trip) : Type 0 where
  pub stands : Memᴰ t d.trips
  pub in_org : t.org_id ≡ org_id
  pub by_driver : t.driver_id ≡ some driver
  pub is_draft : t.status ≡ draft

abbrev pub to_assigned : Trip → Move
to_assigned t = record { trip = t; target = assigned }

commit_trips :
    {c : TripsClient} (lawful : IsLawful c) (d : Tables) (id : String) (m : Move)
    → (actor : Option Actor) (now : Instant)
    → (commit_transition c d id m actor now).1.trips
      ≡ map (update_row id (update_data m.target now)) d.trips
unfolding commit_transition
commit_trips lawful d id m actor now = rw (lawful.create_event_tables, lawful.update_trip_tables)

-- The row holds the driver once it is ASSIGNED.
holds_after :
    (org_id driver : String) (t : Trip) (now : Instant)
    → t.org_id ≡ org_id
    → t.driver_id ≡ some driver
    → matches (active_of org_id driver none) (updated (update_data assigned now) t) ≡ true
unfolding matches updated update_data includes
holds_after org_id driver t now h k = ground (arith, eq_iff t.org_id org_id, eq_iff driver driver)

module _ (c : TripsClient) (lawful : IsLawful c) (d : Tables) (sound : IsSound d)
    (org_id driver : String) (idle : assignments org_id driver d.trips ≡ 0) (actor : Option Actor)
    (carrier : has_permission (actor_permissions actor) "trip:*" ≡ true) where
  none_active : (exclude : Option String) → c.find_trip (active_of org_id driver exclude) d ≡ none
  unfolding assignments
  none_active exclude = elim (Option-cases (c.find_trip (active_of org_id driver exclude) d)) [
    | inl missed ↦ missed
    | inr (v, hit) ↦
        let (stands, fits) = lawful.find_trip_some (active_of org_id driver exclude) d v hit in
        absurd (
          omega (
            arith,
            idle,
            count_of_Mem (matches (active_of org_id driver none)) d.trips stands
                (anywhere org_id driver exclude v fits),
          ))
  ]

  -- The check of the move to ASSIGNED passes.
  assign_allowed :
      (t : Trip)
      → IsDraftOf d org_id driver t
      → check_transition c d org_id t.id (name assigned) actor ≡ ok (to_assigned t)
  unfolding can_transition_trip may_move requires_carrier_actor double_books driver_has_active_trip
  assign_allowed t h =
      IsAllowed-check_transition c d org_id t.id (name assigned) actor (to_assigned t) (record {
        is_found = find_by_id lawful d t.id org_id t sound.unique h.stands refl h.in_org;
        authorized = ground arith;
        is_target = narrow-name assigned;
        legal = ground (arith, h.is_draft);
        by_carrier = λ _. carrier;
        has_pod = λ e. absurd (ground arith);
        not_busy = ground (arith, h.by_driver, none_active (truthy (some t.id)), none_active none);
      })

  -- Two DRAFT trips of one idle driver, moved to ASSIGNED by two requests of the carrier of which
  -- the second is checked before the first commits: both checks pass, and the driver then holds
  -- two active trips.
  pub race_double_books :
      (t u : Trip) (now : Instant)
      → IsDraftOf d org_id driver t
      → IsDraftOf d org_id driver u
      → t.id ≢ u.id
      → (check_transition c d org_id t.id (name assigned) actor ≡ ok (to_assigned t))
        × (check_transition c d org_id u.id (name assigned) actor ≡ ok (to_assigned u))
        × (2
            ≤ assignments org_id driver
                (both_committed c d t.id (to_assigned t) u.id (to_assigned u) actor now).trips)
  unfolding assignments both_committed
  race_double_books t u now ht hu apart =
      let p = matches (active_of org_id driver none) in
      let up = update_data assigned now in
      let ts = map (update_row t.id up) d.trips in
      let first = count_of_Mem (others p u up) ts (Mem-update_self up t d.trips ht.stands) (
        ground (
          arith,
          id-updated up t,
          holds_after org_id driver t now ht.in_org ht.by_driver,
          eq_iff t.id u.id,
        )) in
      (
        assign_allowed t ht,
        assign_allowed u hu,
        rw (commit_trips lawful, commit_trips lawful)
            (omega (
              arith,
              first,
              count-update p u up ts (Unique-update t.id up d.trips sound.unique)
                  (Mem-update t.id up u d.trips (λ e. apart (sym e)) hu.stands),
              ap bit (holds_after org_id driver u now hu.in_org hu.by_driver),
            )),
      )
