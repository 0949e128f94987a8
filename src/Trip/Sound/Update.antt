-- ===== src/Trip/Sound/Update.antt =====
-- One update of a trip with its event keeps the tables sound.
use mathlib.Core.List.{Memᴰ}
use roadwisefleet.Prelude.{
  ◌≤◌, String, ◌≡◌, ◌≢◌, ap, ◌∙◌, Bool, true, false, not, ◌&&◌, none, some, List, [], ◌∷◌, ◌++◌,
  map, ◌==◌, eq_iff, any, All, arith, Bool-cases, inl, inr,
}
use roadwisefleet.Trip.Status.{TripStatus, draft, ◌===◌}
use roadwisefleet.Trip.Lifecycle.{status_refl}
use roadwisefleet.Trip.Tables.{Trip, StatusEvent, Tables, TripUpdate}
use roadwisefleet.Trip.Client.{matches, updated, update_row, given}
use roadwisefleet.Trip.Requests.{active_of}
use roadwisefleet.Trip.Rows.{
  count, bit, others, count-any, count_mono, count-update, Unique-update, All-update,
}
use roadwisefleet.Trip.Sound.{assignments, records_move, follow, RowIsSound, IsSound}

-- The tables after the transaction of a request: an updated row, and one event more.
abbrev pub after : Tables → String → TripUpdate → StatusEvent → Tables
after d id u e = record d { trips = map (update_row id u) d.trips; events = d.events ++ e ∷ [] }

pub follow-append_other :
    (id : String) (s : TripStatus) (es : List StatusEvent) (e : StatusEvent)
    → (e.trip_id == id) ≡ false
    → follow id s (es ++ e ∷ []) ≡ follow id s es
unfolding follow
follow-append_other id s [] e h = ground arith
follow-append_other id s (x ∷ es) e h =
    ground (arith, follow-append_other id s es e, follow-append_other id x.to_status es e)

pub follow-append :
    (id : String) (s t : TripStatus) (es : List StatusEvent) (e : StatusEvent)
    → e.trip_id ≡ id
    → follow id s es ≡ some t
    → (records_move e && e.from_status === t) ≡ true
    → follow id s (es ++ e ∷ []) ≡ some e.to_status
unfolding follow
follow-append id s t [] e own h fits = ground (arith, eq_iff e.trip_id id)
follow-append id s t (x ∷ es) e own h fits =
    ground (arith, follow-append id s t es e, follow-append id x.to_status t es e)

-- A row other than `cur` that holds the driver is one that the query finds.
selected :
    (org_id driver : String) (cur t : Trip)
    → (matches (active_of org_id driver none) t && not (t.id == cur.id)) ≡ true
    → matches (active_of org_id driver (some cur.id)) t ≡ true
unfolding matches
selected org_id driver cur t h = ground arith

others-none :
    (org_id driver : String) (cur : Trip) (u : TripUpdate) (ts : List Trip)
    → any (matches (active_of org_id driver (some cur.id))) ts ≡ false
    → count (others (matches (active_of org_id driver none)) cur u) ts ≡ 0
others-none org_id driver cur u ts h = omega (
  arith,
  count-any (matches (active_of org_id driver (some cur.id))) ts h,
  count_mono (others (matches (active_of org_id driver none)) cur u)
      (matches (active_of org_id driver (some cur.id))) ts (selected org_id driver cur),
)

others-le :
    (p : Trip → Bool) (cur : Trip) (u : TripUpdate) (ts : List Trip)
    → count (others p cur u) ts ≤ count p ts
others-le p cur u ts = count_mono (others p cur u) p ts (λ t h. ground arith)

module _ (d : Tables) (cur : Trip) (u : TripUpdate) (e : StatusEvent) (sound : IsSound d)
    (stands : Memᴰ cur d.trips) (own : e.trip_id ≡ cur.id) (starts : e.from_status ≡ cur.status)
    (ends : e.to_status ≡ given u.status cur.status) (moves : records_move e ≡ true) where
  single-update :
      (org_id driver : String)
      → driver ≢ ""
      → (matches (active_of org_id driver none) (updated u cur) ≡ true
          → any (matches (active_of org_id driver (some cur.id))) d.trips ≡ false)
      → assignments org_id driver (map (update_row cur.id u) d.trips) ≤ 1
  unfolding assignments
  single-update org_id driver real free =
      let p = matches (active_of org_id driver none) in
      elim (Bool-cases (p (updated u cur))) [
        | inl holds ↦ omega (
          arith,
          count-update p cur u d.trips sound.unique stands,
          others-none org_id driver cur u d.trips (free holds),
          ap bit holds,
        )
        | inr idle ↦ omega (
          arith,
          count-update p cur u d.trips sound.unique stands,
          others-le p cur u d.trips,
          sound.single org_id driver real,
          ap bit idle,
        )
      ]

  timeline-update :
      All
        (λ t. follow t.id draft (d.events ++ e ∷ []) ≡ some t.status)
        (map (update_row cur.id u) d.trips)
  unfolding updated
  timeline-update =
      All-update (λ t. follow t.id draft d.events ≡ some t.status)
        (λ t. follow t.id draft (d.events ++ e ∷ []) ≡ some t.status) cur u
        (λ t h ne.
          follow-append_other t.id draft d.events e
            (rw own (ground (arith, eq_iff cur.id t.id, eq_iff t.id cur.id)))
          ∙ h)
        (λ h.
          follow-append cur.id draft cur.status d.events e own h
            (rw (moves, starts) (status_refl cur.status))
          ∙ ap some ends)
        d.trips sound.unique stands sound.timeline

  pub update-IsSound :
      (RowIsSound cur → RowIsSound (updated u cur))
      → ((org_id driver : String)
          → driver ≢ ""
          → matches (active_of org_id driver none) (updated u cur) ≡ true
          → any (matches (active_of org_id driver (some cur.id))) d.trips ≡ false)
      → IsSound (after d cur.id u e)
  update-IsSound row free = record {
    unique = Unique-update cur.id u d.trips sound.unique;
    single = λ o k real. single-update o k real (free o k real);
    rows =
        All-update RowIsSound RowIsSound cur u (λ t h _. h) row d.trips sound.unique stands
          sound.rows;
    timeline = timeline-update;
  }
