-- ===== src/Share/Subjects.antt =====
-- The subject of a token: the helpers of apps/api/src/track-link.js that write a trip or a document
-- with its version into a text and read it back.
use Prim.Native.String.{◌∷◌, ◌++◌}
use roadwisefleet.Prelude.{
  ℕ, ◌/◌, String, Bool, false, not, ◌&&◌, ◌||◌, Option, none, some, ◌==◌, ltb, is_some,
  if◌then◌else◌,
}
use roadwisefleet.Prelude.Text.{trim}
use roadwisefleet.Js.{Number, plus, Value, text, number, million, is_finite, above}
use roadwisefleet.Share.Cuts.{is_empty, cut_first, cut_last, strip}
use roadwisefleet.Share.Decimal.{print, parse_int}

-- `typeof value === 'string' ? value.trim() : ''`
abbrev pub id_of : Value → String
id_of (text s) = trim s
id_of _ = ""

-- `Math.floor(n)` of a finite number that is not negative
abbrev pub floor : Number → ℕ
floor (plus n) = n / million
floor _ = 0

-- `Number.isFinite(value) && value > 0 ? Math.floor(value) : 0`
abbrev pub version_of : Value → ℕ
version_of (number n) = if is_finite n && above n 0 then floor n else 0
version_of _ = 0

-- `TRACK_LINK_VERSION_SEP` and the colon, by their numbers
abbrev pub version_sep : ℕ
version_sep = b'~'

abbrev pub colon : ℕ
colon = b':'

-- `SHARE_SUB_PREFIX`
abbrev pub share_sub_prefix : String
share_sub_prefix = "share:"

-- `encodeTrackSub(tripId, version)`
unfoldable pub encode_track_sub : Value → Value → String
encode_track_sub trip_id version =
    let v = version_of version in
    if ltb 0 v then id_of trip_id ++ ("~" ∷ print v) else id_of trip_id

-- What a subject names.
pub record Subject : Type 0 where
  pub trip_id : String
  pub version : ℕ

-- `decodeTrackSub(sub)`
unfoldable pub decode_track_sub : Value → Subject
decode_track_sub (text raw) = elim (cut_last version_sep raw) [
  | none ↦ record { trip_id = raw; version = 0 }
  | some (before, behind) ↦
      if is_empty before || is_empty behind
      then record { trip_id = raw; version = 0 }
      else elim (parse_int behind) [
        | none ↦ record { trip_id = raw; version = 0 }
        | some v ↦ record { trip_id = before; version = v }
      ]
]
decode_track_sub _ = record { trip_id = ""; version = 0 }

-- `isGuestScope(value)`, with `GUEST_SCOPES`
unfoldable pub is_guest_scope : Value → Bool
is_guest_scope (text s) = s == "document" || s == "invoice"
is_guest_scope _ = false

-- `encodeShareSub(scope, documentId, version)`; `none` where it throws
unfoldable pub encode_share_sub : Value → Value → Value → Option String
encode_share_sub (text scope) document_id version =
    if not (is_guest_scope (text scope))
    then none
    else if is_empty (id_of document_id)
    then none
    else some
        (share_sub_prefix ++ (scope ++ (":" ∷ encode_track_sub (text (id_of document_id)) version)))
encode_share_sub _ document_id version = none

-- What a scoped subject names.
pub record Shared : Type 0 where
  pub scope : String
  pub document_id : String
  pub version : ℕ

-- The part of `decodeShareSub` behind the prefix.
unfoldable pub decode_scoped : String → Option Shared
decode_scoped rest = elim (cut_first colon rest) [
  | none ↦ none
  | some (scope, encoded_id) ↦
      if is_empty scope || is_empty encoded_id
      then none
      else if not (is_guest_scope (text scope))
      then none
      else if is_some (strip share_sub_prefix encoded_id)
      then none
      else let s = decode_track_sub (text encoded_id) in
        if is_empty s.trip_id
        then none
        else some (record { scope = scope; document_id = s.trip_id; version = s.version })
]

-- `decodeShareSub(sub)`
unfoldable pub decode_share_sub : Value → Option Shared
decode_share_sub (text sub) = elim (strip share_sub_prefix sub) [
  | none ↦ none
  | some rest ↦ decode_scoped rest
]
decode_share_sub _ = none
