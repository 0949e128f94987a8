-- ===== src/Filters/Statuses.antt =====
-- The statuses of a filter, written in one text and read back (apps/api/src/trip-filters.js).
use mathlib.Core.Path.{subst}
use roadwisefleet.Prelude.{
  String, ◌≡◌, refl, ap, ◌∙◌, false, inl, inr, Option, none, some, List, map, arith, Bool-cases,
  Option-cases,
}
use roadwisefleet.Prelude.Text.{trim, trim_start, trim_end}
use roadwisefleet.Js.{Value, text, undefined, null, bool, number, other}
use roadwisefleet.Share.Cuts.{is_empty, holds, split, split-none, split-append}
use roadwisefleet.Trip.Status.{TripStatus, name, narrow, includes}
use roadwisefleet.Trip.Lifecycle.{narrow-name}
use roadwisefleet.Filters.Query.{
  as_array, push, add_parts, add_entries, join_names, statuses_text, value_or_absent,
}

-- None of the statuses is pushed a second time, behind those that are there.
abbrev pub IsFresh : List TripStatus → List TripStatus → Type 0
IsFresh acc List.[] = Unit
IsFresh acc (List.◌∷◌ s ss) = (includes acc s ≡ false) × IsFresh (push acc s) ss

abbrev push_all : List TripStatus → List TripStatus → List TripStatus
push_all acc List.[] = acc
push_all acc (List.◌∷◌ s ss) = push_all (push acc s) ss

push_all-push :
    (acc ss : List TripStatus) (s : TripStatus)
    → push_all acc (push ss s) ≡ push (push_all acc ss) s
unfolding push
push_all-push acc List.[] s = refl
push_all-push acc (List.◌∷◌ t ts) s = push_all-push (push acc t) ts s

push-IsFresh :
    (acc ss : List TripStatus) (s : TripStatus)
    → IsFresh acc ss
    → includes (push_all acc ss) s ≡ false
    → IsFresh acc (push ss s)
unfolding push
push-IsFresh acc List.[] s h g = (g, tt)
push-IsFresh acc (List.◌∷◌ t ts) s h g = (h.0, push-IsFresh (push acc t) ts s h.1 g)

-- Pushed one after another, statuses make the list that they are.
push_all-cons :
    (t : TripStatus) (acc ss : List TripStatus)
    → push_all (List.◌∷◌ t acc) ss ≡ List.◌∷◌ t (push_all acc ss)
unfolding push
push_all-cons t acc List.[] = refl
push_all-cons t acc (List.◌∷◌ s ss) = push_all-cons t (push acc s) ss

push_all-nil : (ss : List TripStatus) → push_all List.[] ss ≡ ss
unfolding push
push_all-nil List.[] = refl
push_all-nil (List.◌∷◌ s ss) = push_all-cons s List.[] ss ∙ ap (List.◌∷◌ s) (push_all-nil ss)

add_parts-IsFresh :
    (ps : List String) (acc ss : List TripStatus)
    → IsFresh List.[] acc
    → add_parts ps acc ≡ some ss
    → IsFresh List.[] ss
unfolding add_parts
add_parts-IsFresh List.[] acc ss h e = let same : acc ≡ ss = cc e in subst (IsFresh List.[]) same h
add_parts-IsFresh (List.◌∷◌ p ps) acc ss h e = elim (Bool-cases (is_empty (trim p))) [
  | inl blank ↦ add_parts-IsFresh ps acc ss h (ground (arith, e, blank))
  | inr given ↦ elim (Option-cases (narrow (trim p))) [
    | inl unknown ↦ absurd (ground (arith, e, given, unknown))
    | inr (s, known) ↦ elim (Bool-cases (includes acc s)) [
      | inl twice ↦ add_parts-IsFresh ps acc ss h (ground (arith, e, given, known, twice))
      | inr fresh ↦
          add_parts-IsFresh ps (push acc s) ss
            (push-IsFresh List.[] acc s h (ap (λ z. includes z s) (push_all-nil acc) ∙ fresh))
            (ground (arith, e, given, known, fresh))
    ]
  ]
]

pub add_entries-IsFresh :
    (vs : List Value) (acc ss : List TripStatus)
    → IsFresh List.[] acc
    → add_entries vs acc ≡ some ss
    → IsFresh List.[] ss
unfolding add_entries
add_entries-IsFresh List.[] acc ss h e =
    let same : acc ≡ ss = cc e in subst (IsFresh List.[]) same h
add_entries-IsFresh (List.◌∷◌ (text s) vs) acc ss h e =
    let ps = List.◌∷◌ (split b',' s).0 (split b',' s).1 in
    elim (Option-cases (add_parts ps acc)) [
      | inl bad ↦ absurd (ground (arith, e, bad))
      | inr (more, good) ↦
          add_entries-IsFresh vs more ss (add_parts-IsFresh ps acc more h good)
            (ground (arith, e, good))
    ]
add_entries-IsFresh (List.◌∷◌ undefined vs) acc ss h e = absurd (ground (arith, e))
add_entries-IsFresh (List.◌∷◌ null vs) acc ss h e = absurd (ground (arith, e))
add_entries-IsFresh (List.◌∷◌ (bool b) vs) acc ss h e = absurd (ground (arith, e))
add_entries-IsFresh (List.◌∷◌ (number n) vs) acc ss h e = absurd (ground (arith, e))
add_entries-IsFresh (List.◌∷◌ (other s) vs) acc ss h e = absurd (ground (arith, e))

name-trim : (s : TripStatus) → (trim (name s) ≡ name s) × (is_empty (name s) ≡ false)
unfolding trim trim_start trim_end name is_empty
name-trim TripStatus.draft = (refl, refl)
name-trim _ = (refl, refl)

name-comma : (s : TripStatus) → holds b',' (name s) ≡ false
unfolding holds name
name-comma TripStatus.draft = refl
name-comma _ = refl

split-join_names :
    (s : TripStatus) (ss : List TripStatus) → split b',' (join_names s ss) ≡ (name s, map name ss)
unfolding join_names
split-join_names s List.[] = split-none b',' (name s) (name-comma s)
split-join_names s (List.◌∷◌ t ts) =
    split-append b',' "," (name s) (join_names t ts) refl (name-comma s)
    ∙ ap (λ z. (name s, List.◌∷◌ z.0 z.1)) (split-join_names t ts)

add_parts-known :
    (p : String) (ps : List String) (acc : List TripStatus) (s : TripStatus)
    → is_empty (trim p) ≡ false
    → narrow (trim p) ≡ some s
    → includes acc s ≡ false
    → add_parts (List.◌∷◌ p ps) acc ≡ add_parts ps (push acc s)
unfolding add_parts
add_parts-known p ps acc s given known fresh = ground (arith, given, known, fresh)

add_parts-names :
    (ss acc : List TripStatus)
    → IsFresh acc ss
    → add_parts (map name ss) acc ≡ some (push_all acc ss)
unfolding add_parts
add_parts-names List.[] acc h = refl
add_parts-names (List.◌∷◌ s ss) acc h =
    add_parts-known (name s) (map name ss) acc s (ap is_empty (name-trim s).0 ∙ (name-trim s).1)
      (ap narrow (name-trim s).0 ∙ narrow-name s) h.0
    ∙ add_parts-names ss (push acc s) h.1

add_entries-one :
    (t p : String) (ps : List String) (ss : List TripStatus)
    → split b',' t ≡ (p, ps)
    → add_parts (List.◌∷◌ p ps) List.[] ≡ some ss
    → add_entries (List.◌∷◌ (text t) List.[]) List.[] ≡ some ss
unfolding add_entries
add_entries-one t p ps ss e h =
    ap (λ z. again (add_parts (List.◌∷◌ z.0 z.1) List.[])) e ∙ ap again h
  where
    again : Option (List TripStatus) → Option (List TripStatus)
    again none = none
    again (some more) = some more

-- What is written of statuses is read as the same statuses.
pub add_entries-statuses_text :
    (ss : List TripStatus)
    → IsFresh List.[] ss
    → add_entries (as_array (value_or_absent (statuses_text ss))) List.[] ≡ some ss
unfolding add_entries as_array statuses_text
add_entries-statuses_text List.[] h = refl
add_entries-statuses_text (List.◌∷◌ s ss) h =
    add_entries-one (join_names s ss) (name s) (map name ss) (List.◌∷◌ s ss) (split-join_names s ss)
      (add_parts-names (List.◌∷◌ s ss) List.[] h ∙ ap some (push_all-nil (List.◌∷◌ s ss)))
