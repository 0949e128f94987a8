-- ===== src/Share/Links.antt =====
-- Signed links: `deriveTrackSecret`, `signTrackLink`, `verifyTrackLink`, `signShareLink` and
-- `verifyShareLink` of apps/api/src/track-link.js. A clock is an argument, in seconds.
use roadwisefleet.Prelude.{
  ℕ, ◌+◌, ◌*◌, String, Bool, true, false, not, ◌&&◌, Option, none, some, ◌==◌, leb, is_some,
  if◌then◌else◌,
}
use roadwisefleet.Js.{Value, null, text, number, Fields, is_finite, above}
use roadwisefleet.Gps.Points.{date_range}
use roadwisefleet.Share.Cuts.{is_empty, strip}
use roadwisefleet.Share.Subjects.{
  id_of, floor, version_of, share_sub_prefix, encode_track_sub, Subject, decode_track_sub,
  is_guest_scope, encode_share_sub, Shared, decode_share_sub,
}
use roadwisefleet.Share.Tokens.{Claims, Codec, sign_token, verify_token}

-- `DERIVE_CONTEXT` and `DEFAULT_TRACK_TTL_SECONDS`
abbrev pub derive_context : String
derive_context = "roadwisefleet/track-link/v1"

abbrev pub default_track_ttl_seconds : ℕ
default_track_ttl_seconds = 2592000

-- `Number.isFinite(ttlSeconds) && ttlSeconds > 0 ? Math.floor(ttlSeconds) : DEFAULT_TRACK_TTL_SECONDS`
abbrev pub ttl_of : Value → ℕ
ttl_of (number n) = if is_finite n && above n 0 then floor n else default_track_ttl_seconds
ttl_of _ = default_track_ttl_seconds

-- The secrets that the environment has, and the time.
pub record Keys : Type 0 where
  pub auth_secret : Value
  pub secret : Value

-- What minting returns; the instant is in milliseconds since 1970.
pub record Link : Type 0 where
  pub token : String
  pub expires_at : ℕ
  pub ttl_seconds : ℕ
  pub version : ℕ

-- What verification returns, the payload's numbers as they stand in it.
pub record Opened : Type 0 where
  pub subject : Subject
  pub iat : Value
  pub exp : Value

pub record SharedLink : Type 0 where
  pub shared : Shared
  pub iat : Value
  pub exp : Value

-- `value === null`
abbrev pub is_null : Value → Bool
is_null null = true
is_null _ = false

-- No session token: `payload.org`, `payload.role` and `payload.name` are null.
abbrev pub has_no_session : Fields → Bool
has_no_session payload =
    is_null (payload "org") && is_null (payload "role") && is_null (payload "name")

-- The claims of a link: its subject, and nothing of a session.
abbrev pub link_claims : String → Claims
link_claims sub = record { sub = sub; org = none; role = none; name = none }

module _ (k : Codec) where
  -- `deriveTrackSecret(authSecret, { override })`: `none` where it throws. The context is signed with
  -- the secret.
  unfoldable pub derive_track_secret : Keys → Option String
  derive_track_secret keys =
      if not (is_empty (id_of keys.secret))
      then some (id_of keys.secret)
      else elim keys.auth_secret [
        | text s ↦ if is_empty s then none else some (k.sign derive_context s)
        | _ ↦ none
      ]

  -- The rest of both minting functions, from the key: `none` where they throw, as `toISOString` does
  -- on an instant out of range.
  unfoldable pub mint : String → String → ℕ → ℕ → ℕ → Option Link
  mint key sub version ttl now = elim (sign_token k (link_claims sub) key ttl now) [
    | none ↦ none
    | some token ↦
        if leb ((now + ttl) * 1000) date_range
        then some (record {
          token = token;
          expires_at = (now + ttl) * 1000;
          ttl_seconds = ttl;
          version = version;
        })
        else none
  ]

  -- `signTrackLink({ tripId, version, authSecret, secret, ttlSeconds, now })`
  unfoldable pub sign_track_link : Value → Value → Keys → Value → ℕ → Option Link
  sign_track_link trip_id version keys ttl now =
      if is_empty (id_of trip_id) then none else elim (derive_track_secret keys) [
        | none ↦ none
        | some key ↦
            mint key (encode_track_sub (text (id_of trip_id)) version) (version_of version)
              (ttl_of ttl) now
      ]

  -- `signShareLink({ scope, documentId, version, authSecret, secret, ttlSeconds, now })`
  unfoldable pub sign_share_link : Value → Value → Value → Keys → Value → ℕ → Option Link
  sign_share_link scope document_id version keys ttl now =
      if not (is_guest_scope scope)
      then none
      else if is_empty (id_of document_id)
      then none
      else elim (derive_track_secret keys) [
        | none ↦ none
        | some key ↦ elim (encode_share_sub scope (text (id_of document_id)) version) [
          | none ↦ none
          | some sub ↦ mint key sub (version_of version) (ttl_of ttl) now
        ]
      ]

  -- What both verifying functions do first: the payload of a token that is no session's, with its
  -- subject.
  unfoldable pub link_payload : Value → Keys → ℕ → Option (Fields × String)
  link_payload token keys now = elim (derive_track_secret keys) [
    | none ↦ none
    | some key ↦ elim (verify_token k token key now) [
      | none ↦ none
      | some payload ↦ elim (payload "sub") [
        | text sub ↦
            if is_empty sub
            then none
            else if not (has_no_session payload)
            then none
            else some (payload, sub)
        | _ ↦ none
      ]
    ]
  ]

  -- `verifyTrackLink(token, { authSecret, secret, now })`
  unfoldable pub verify_track_link : Value → Keys → ℕ → Option Opened
  verify_track_link token keys now = elim (link_payload token keys now) [
    | none ↦ none
    | some (payload, sub) ↦
        if is_some (strip share_sub_prefix sub)
        then none
        else let s = decode_track_sub (text sub) in
          if is_empty s.trip_id
          then none
          else some (record { subject = s; iat = payload "iat"; exp = payload "exp" })
  ]

  -- `verifyShareLink(token, { scope, authSecret, secret, now })`
  unfoldable pub verify_share_link : Value → String → Keys → ℕ → Option SharedLink
  verify_share_link token scope keys now =
      if not (is_guest_scope (text scope)) then none else elim (link_payload token keys now) [
        | none ↦ none
        | some (payload, sub) ↦ elim (decode_share_sub (text sub)) [
          | none ↦ none
          | some s ↦
              if not (s.scope == scope)
              then none
              else some (record { shared = s; iat = payload "iat"; exp = payload "exp" })
        ]
      ]
