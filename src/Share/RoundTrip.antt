-- ===== src/Share/RoundTrip.antt =====
-- Subjects read back (apps/api/src/track-link.js).
use Prim.Native.String.{◌∷◌, ◌++◌}
use package.text.Mathlib.TextLemmas.{cons-append}
use roadwisefleet.Prelude.{
  ℕ, String, ◌≡◌, refl, ap, Bool, true, false, not, ◌&&◌, ◌||◌, none, some, ◌==◌, ltb, eq_iff,
  arith, Bool-cases, inl, inr, if◌then◌else◌,
}
use roadwisefleet.Prelude.Text.{trim, trim_start, trim_end}
use roadwisefleet.Prelude.Trimmed.{trim-trim}
use roadwisefleet.Js.{Value, text}
use roadwisefleet.Share.Cuts.{
  is_empty, holds, strip, cut_last-none, cut_last-append, cut_first-append, strip-append,
  strip-beyond, is_empty-append,
}
use roadwisefleet.Share.Decimal.{print, parse_int-print, holds-print, print-nonempty}
use roadwisefleet.Share.Subjects.{
  id_of, version_of, version_sep, colon, share_sub_prefix, encode_track_sub, decode_track_sub,
  is_guest_scope, encode_share_sub, decode_scoped, decode_share_sub,
}

-- A subject with this identifier and this version is not ambiguous.
abbrev pub is_clear : String → ℕ → Bool
is_clear id v = not (is_empty id) && (ltb 0 v || not (holds version_sep id))

written_plain : (t v : Value) → ltb 0 (version_of v) ≡ false → encode_track_sub t v ≡ id_of t
unfolding encode_track_sub
written_plain t v e = ground arith

written_versioned :
    (t v : Value)
    → ltb 0 (version_of v) ≡ true
    → encode_track_sub t v ≡ id_of t ++ ("~" ∷ print (version_of v))
unfolding encode_track_sub
written_versioned t v e = ground arith

read_plain :
    (s : String)
    → holds version_sep s ≡ false
    → decode_track_sub (text s) ≡ record { trip_id = s; version = 0 }
unfolding decode_track_sub
read_plain s h = ground (arith, cut_last-none version_sep s h)

read_versioned :
    (s : String) (n : ℕ)
    → is_empty s ≡ false
    → decode_track_sub (text (s ++ ("~" ∷ print n))) ≡ record { trip_id = s; version = n }
unfolding decode_track_sub
read_versioned s n h = ground (
  arith,
  cut_last-append version_sep "~" s (print n) refl (holds-print version_sep n refl),
  print-nonempty n,
  parse_int-print n,
)

-- A trip's identifier and version are read back from the subject of its tracking token, where the
-- identifier is not blank, and has no `~` if the version is 0.
pub decode_track_sub-encode :
    (trip_id version : Value)
    → is_clear (id_of trip_id) (version_of version) ≡ true
    → decode_track_sub (text (encode_track_sub trip_id version))
      ≡ record { trip_id = id_of trip_id; version = version_of version }
decode_track_sub-encode t v h = elim (Bool-cases (ltb 0 (version_of v))) [
  | inl up ↦ rw (written_versioned t v up) (read_versioned (id_of t) (version_of v) (ground arith))
  | inr zero ↦
      let e : version_of v ≡ 0 = ground arith in
      rw (written_plain t v zero, e) (read_plain (id_of t) (ground arith))
]

pub id_of-trimmed : (v : Value) → id_of (text (id_of v)) ≡ id_of v
unfolding trim trim_start trim_end
id_of-trimmed (text s) = trim-trim s
id_of-trimmed _ = refl

pub encode_track_sub-trimmed :
    (id version : Value) → encode_track_sub (text (id_of id)) version ≡ encode_track_sub id version
unfolding encode_track_sub
encode_track_sub-trimmed id version =
    ap (λ z. if ltb 0 (version_of version) then z ++ ("~" ∷ print (version_of version)) else z)
      (id_of-trimmed id)

pub encode_track_sub-nonempty :
    (id version : Value)
    → is_empty (id_of id) ≡ false
    → is_empty (encode_track_sub id version) ≡ false
unfolding encode_track_sub
encode_track_sub-nonempty id version h =
    ground (arith, is_empty-append (id_of id) "~" (print (version_of version)))

-- The subject of a tracking token does not begin like that of a share.
pub encode_track_sub-unscoped :
    (id version : Value)
    → strip share_sub_prefix (id_of id) ≡ none
    → strip share_sub_prefix (encode_track_sub id version) ≡ none
unfolding encode_track_sub holds
encode_track_sub-unscoped id version h =
    ground (arith, strip-beyond share_sub_prefix (id_of id) "~" (print (version_of version)) refl h)

scope_plain :
    (s : String) → is_guest_scope (text s) ≡ true → (is_empty s ≡ false) × (holds colon s ≡ false)
unfolding is_guest_scope is_empty holds
scope_plain s h = elim (Bool-cases (s == "document")) [
  | inl doc ↦ let e : s ≡ "document" = (eq_iff s "document").0 doc in rw e (refl, refl)
  | inr other ↦ let e : s ≡ "invoice" = (eq_iff s "invoice").0 (ground arith) in rw e (refl, refl)
]

write_scoped :
    (s : String) (id version : Value)
    → is_guest_scope (text s) ≡ true
    → is_empty (id_of id) ≡ false
    → encode_share_sub (text s) id version
      ≡ some (share_sub_prefix ++ (s ++ (":" ∷ encode_track_sub id version)))
unfolding encode_share_sub
write_scoped s id version g h = ground (arith, encode_track_sub-trimmed id version)

read_scoped :
    (s : String) (id version : Value)
    → is_guest_scope (text s) ≡ true
    → is_clear (id_of id) (version_of version) ≡ true
    → strip share_sub_prefix (id_of id) ≡ none
    → decode_scoped (s ++ (":" ∷ encode_track_sub id version))
      ≡ some (record { scope = s; document_id = id_of id; version = version_of version })
unfolding decode_scoped
read_scoped s id version g c p =
    let (nonempty, plain) = scope_plain s g in
    let enc = encode_track_sub id version in
    let full : is_empty (id_of id) ≡ false = ground arith in
    ground (
      arith,
      cut_first-append colon ":" s enc refl plain,
      nonempty,
      encode_track_sub-nonempty id version full,
      encode_track_sub-unscoped id version p,
      decode_track_sub-encode id version c,
      full,
    )

-- A guest scope, a document's identifier and the version are read back from the subject that is
-- written of them, where the identifier is not blank, does not begin with `share:`, and has no `~`
-- if the version is 0. The subject is written.
pub decode_share_sub-encode :
    (scope : String) (id version : Value)
    → is_guest_scope (text scope) ≡ true
    → is_clear (id_of id) (version_of version) ≡ true
    → strip share_sub_prefix (id_of id) ≡ none
    → (sub : String) × (encode_share_sub (text scope) id version ≡ some sub)
      × (decode_share_sub (text sub)
          ≡ some (record { scope = scope; document_id = id_of id; version = version_of version }))
unfolding decode_share_sub
decode_share_sub-encode scope id version g c p =
    let rest = scope ++ (":" ∷ encode_track_sub id version) in
    (
      share_sub_prefix ++ rest,
      write_scoped scope id version g (ground arith),
      ground (arith, strip-append share_sub_prefix rest, read_scoped scope id version g c p),
    )

prefix_nonempty : (s : String) → is_empty (share_sub_prefix ++ s) ≡ false
unfolding is_empty
prefix_nonempty s = rw cons-append refl

pub encode_share_sub-nonempty :
    (scope : String) (id version : Value) (sub : String)
    → encode_share_sub (text scope) id version ≡ some sub
    → is_empty sub ≡ false
unfolding encode_share_sub
encode_share_sub-nonempty scope id version sub e =
    ground (arith, prefix_nonempty (scope ++ (":" ∷ encode_track_sub (text (id_of id)) version)))
