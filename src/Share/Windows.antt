-- ===== src/Share/Windows.antt =====
-- The share window that a trip's row keeps, and the links that are computed again from it:
-- `isTrackLinkActive`, `trackingSummary` and `reconstructTrackLink` of
-- apps/api/src/track-link.js, and `mintDocumentLink` of apps/api/src/guest-share.js. The columns
-- are dates or null, in milliseconds since 1970, and the version is a whole number.
use roadwisefleet.Prelude.{
  ℕ, ◌+◌, ◌-◌, ◌*◌, ◌/◌, String, Bool, true, false, not, Option, none, some, ltb, leb,
  if◌then◌else◌,
}
use roadwisefleet.Js.{Value, text, number, plus, million}
use roadwisefleet.Share.Tokens.{Codec}
use roadwisefleet.Share.Links.{Keys, Link, sign_track_link, sign_share_link}

-- The columns of a trip that its links depend on.
pub record Window : Type 0 where
  pub id : String
  pub org_id : String
  pub track_link_version : ℕ
  pub track_link_issued_at : Option ℕ
  pub track_link_expires_at : Option ℕ

-- `isTrackLinkActive(trip, { now })`, the time in milliseconds
unfoldable pub is_track_link_active : Window → ℕ → Bool
is_track_link_active w now = elim w.track_link_issued_at [
  | none ↦ false
  | some issued ↦ elim w.track_link_expires_at [ none ↦ false | some expires ↦ ltb now expires ]
]

pub record Summary : Type 0 where
  pub active : Bool
  pub expires_at : Option ℕ

-- `trackingSummary(trip, { now })`
unfoldable pub tracking_summary : Window → ℕ → Summary
tracking_summary w now =
    if is_track_link_active w now
    then record { active = true; expires_at = w.track_link_expires_at }
    else record { active = false; expires_at = none }

-- `Math.max(1, Math.round((expiresMs - issuedMs) / 1000))`, where the end is not before the start
abbrev pub window_seconds : ℕ → ℕ → ℕ
window_seconds issued expires = let s = (expires - issued + 500) / 1000 in if ltb 1 s then s else 1

-- A whole number as a value.
abbrev pub whole : ℕ → Value
whole n = number (plus (n * million))

module _ (k : Codec) where
  -- `reconstructTrackLink(trip, { authSecret, secret, now })`, the time in milliseconds. Outside,
  -- `none` where it throws.
  unfoldable pub reconstruct_track_link : Window → Keys → ℕ → Option (Option Link)
  reconstruct_track_link w keys now =
      if not (is_track_link_active w now) then some none else elim w.track_link_issued_at [
        | none ↦ some none
        | some issued ↦ elim w.track_link_expires_at [
          | none ↦ some none
          | some expires ↦
              if leb expires issued
              then some none
              else elim (sign_track_link k (text w.id) (whole w.track_link_version) keys
                  (whole (window_seconds issued expires)) (issued / 1000)) [
                    | none ↦ none
                    | some l ↦ some (some l)
                  ]
        ]
      ]

  -- `mintDocumentLink(trip, document, { scope, authSecret, secret, now })`, the time in seconds. A
  -- link that cannot be signed is caught.
  unfoldable pub mint_document_link : Window → Value → Value → Keys → ℕ → Option Link
  mint_document_link w document_id scope keys now = elim w.track_link_issued_at [
    | none ↦ none
    | some issued ↦ elim w.track_link_expires_at [
      | none ↦ none
      | some expires ↦
          if leb expires issued
          then none
          else if leb expires (now * 1000)
          then none
          else sign_share_link k scope document_id (whole w.track_link_version) keys
              (whole (window_seconds issued expires)) (issued / 1000)
    ]
  ]
