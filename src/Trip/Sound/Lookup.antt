-- ===== src/Trip/Sound/Lookup.antt =====
-- With unique keys, the query by id and organisation finds the one row that is there.
use mathlib.Core.List.{Memᴰ}
use roadwisefleet.Prelude.{
  String, ◌≡◌, sym, ap, ◌∙◌, true, false, some, List, [], ◌∷◌, eq_iff, any, arith, inl, inr,
  Option-cases,
}
use roadwisefleet.Trip.Tables.{Trip, Tables}
use roadwisefleet.Trip.Client.{TripsClient, IsLawful, matches, has_id}
use roadwisefleet.Trip.Requests.{by_id}
use roadwisefleet.Trip.Rows.{Unique, none_of_Mem}
use roadwisefleet.Trip.Sound.Allowed.{found_row}

apart :
    (t u : Trip) (ts : List Trip)
    → any (has_id t.id) ts ≡ false
    → Memᴰ u ts
    → t.id ≡ u.id
    → false ≡ true
apart t u ts h m e = ground (arith, none_of_Mem (has_id t.id) ts m h, eq_iff u.id t.id)

pub same_row :
    {a b : Trip} (ts : List Trip) → Unique ts → Memᴰ a ts → Memᴰ b ts → a.id ≡ b.id → a ≡ b
same_row [] n m k e = elim m [ ]
same_row (t ∷ ts) n (Memᴰ.head p) (Memᴰ.head q) e = p ∙ sym q
same_row {a} {b} (t ∷ ts) n (Memᴰ.head p) (Memᴰ.tail k) e =
    absurd (ground (arith, apart t b ts n.0 k (ap (λ (x : Trip). x.id) (sym p) ∙ e)))
same_row {a} {b} (t ∷ ts) n (Memᴰ.tail m) (Memᴰ.head q) e =
    absurd (ground (arith, apart t a ts n.0 m (ap (λ (x : Trip). x.id) (sym q) ∙ sym e)))
same_row (t ∷ ts) n (Memᴰ.tail m) (Memᴰ.tail k) e = same_row ts n.1 m k e

selects :
    (id org_id : String) (t : Trip)
    → t.id ≡ id
    → t.org_id ≡ org_id
    → matches (by_id id org_id) t ≡ true
unfolding matches
selects id org_id t own in_org = ground (arith, eq_iff t.id id, eq_iff t.org_id org_id)

pub find_by_id :
    {c : TripsClient} (lawful : IsLawful c) (d : Tables) (id org_id : String) (t : Trip)
    → Unique d.trips
    → Memᴰ t d.trips
    → t.id ≡ id
    → t.org_id ≡ org_id
    → c.find_trip (by_id id org_id) d ≡ some t
find_by_id {c} lawful d id org_id t n m own in_org =
    elim (Option-cases (c.find_trip (by_id id org_id) d)) [
      | inl missed ↦ absurd (
          ground (
            arith,
            none_of_Mem (matches (by_id id org_id)) d.trips m
                (lawful.find_trip_none (by_id id org_id) d missed),
            selects id org_id t own in_org,
          ))
      | inr (u, hit) ↦
          let (stands, same_id, _) = found_row lawful hit in
          hit ∙ ap some (same_row d.trips n stands m (same_id ∙ sym own))
    ]
