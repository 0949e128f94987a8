-- ===== src/Share/Memory.antt =====
-- A client of the database with the laws of one, which the examples run with: the trips by their ids.
use roadwisefleet.Prelude.{
  String, ◌≡◌, refl, false, ◌&&◌, Option, none, some, ◌==◌, eq_iff, eq_refl, arith, if◌then◌else◌,
}
use roadwisefleet.Share.Tracked.{TrackedRow, LinksClient}
use roadwisefleet.Share.Routes.{row_after, IsLinksClient}

abbrev pub Trips : Type 0
Trips = String → Option TrackedRow

abbrev pub own : String → String → Option TrackedRow → Option TrackedRow
own id org none = none
own id org (some t) = if t.window.id == id && t.window.org_id == org then some t else none

abbrev pub keyed_trips : LinksClient Trips
keyed_trips = record {
  find_trip = λ id s. s id;
  find_own_trip = λ id org s. own id org (s id);
  update_trip = λ id u s x. if x == id then row_after u (s x) else s x;
  has_pod = λ id s. false;
}

own-some :
    (id org : String) (o : Option TrackedRow) (t : TrackedRow)
    → own id org o ≡ some t
    → (o ≡ some t) × (t.window.id ≡ id)
own-some id org none t e = absurd (ground (arith, e))
own-some id org (some t') t e = ground (arith, e, eq_iff t'.window.id id)

pub keyed_trips-IsLinksClient : IsLinksClient keyed_trips
keyed_trips-IsLinksClient = record {
  find-update = λ id u s. rw (eq_refl id) refl;
  find-update_other = λ id other u s apart. ground (arith, apart, eq_iff other id);
  own_found = λ id org s t e. own-some id org (s id) t e;
}
