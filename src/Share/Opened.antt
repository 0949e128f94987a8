-- ===== src/Share/Opened.antt =====
-- Links that were minted, opened again, and the scopes of links (apps/api/src/track-link.js).
use roadwisefleet.Prelude.{
  ℕ, ◌+◌, ◌*◌, ◌≤◌, ◌<◌, String, ◌≡◌, true, false, none, some, arith, eq_refl,
}
use roadwisefleet.Js.{Value, text, number, plus, million}
use roadwisefleet.Gps.Points.{date_range}
use roadwisefleet.Share.Cuts.{is_empty, strip}
use roadwisefleet.Share.Subjects.{
  id_of, version_of, share_sub_prefix, encode_track_sub, is_guest_scope,
}
use roadwisefleet.Share.RoundTrip.{
  is_clear, id_of-trimmed, encode_share_sub-nonempty, encode_track_sub-trimmed,
  encode_track_sub-nonempty, encode_track_sub-unscoped, decode_track_sub-encode,
  decode_share_sub-encode,
}
use roadwisefleet.Share.Tokens.{fields_of, Codec, IsCodec}
use roadwisefleet.Share.Signed.{verify_token-sign}
use roadwisefleet.Share.Links.{
  ttl_of, Keys, Link, link_claims, derive_track_secret, mint, sign_track_link, sign_share_link,
  link_payload, verify_track_link, verify_share_link, derive_context,
}

-- The instants of a payload, as they stand in a token.
abbrev pub seconds : ℕ → Value
seconds n = number (plus (n * million))

module _ (k : Codec) (law : IsCodec k) where
  -- A derived key is not empty.
  derive_track_secret-nonempty :
      (keys : Keys) (key : String) → derive_track_secret k keys ≡ some key → is_empty key ≡ false
  unfolding derive_track_secret
  derive_track_secret-nonempty keys key e =
      grind (arith, λ (s : String). law.sign_nonempty derive_context s)

  mint-link_payload :
      (keys : Keys) (key sub : String) (version ttl issued now : ℕ)
      → derive_track_secret k keys ≡ some key
      → is_empty sub ≡ false
      → now < issued + ttl
      → (issued + ttl) * 1000 ≤ date_range
      → (l : Link) × (mint k key sub version ttl issued ≡ some l)
        × (link_payload k (text l.token) keys now
            ≡ some (
              fields_of (record { claims = link_claims sub; iat = issued; exp = issued + ttl }),
              sub,
            ))
  unfolding mint link_payload
  mint-link_payload keys key sub version ttl issued now d s h r =
      let (token, signed, verified) =
        verify_token-sign k law (link_claims sub) key ttl issued now s
          (derive_track_secret-nonempty keys key d) h in
      (
        record {
          token = token;
          expires_at = (issued + ttl) * 1000;
          ttl_seconds = ttl;
          version = version;
        },
        ground (arith, signed),
        ground (arith, d, verified, s),
      )

  -- A tracking link is minted and opens to its trip and version, with its instants, at any time
  -- before the end of its term: where a secret is there, the trip's identifier is not blank and
  -- neither begins with `share:` nor has a `~` at version 0, and the end is a date of the language.
  pub verify_track_link-sign :
      (trip_id version ttl : Value) (keys : Keys) (key : String) (issued now : ℕ)
      → derive_track_secret k keys ≡ some key
      → is_clear (id_of trip_id) (version_of version) ≡ true
      → strip share_sub_prefix (id_of trip_id) ≡ none
      → now < issued + ttl_of ttl
      → (issued + ttl_of ttl) * 1000 ≤ date_range
      → (l : Link) × (sign_track_link k trip_id version keys ttl issued ≡ some l)
        × (verify_track_link k (text l.token) keys now
            ≡ some (record {
              subject = record { trip_id = id_of trip_id; version = version_of version };
              iat = seconds issued;
              exp = seconds (issued + ttl_of ttl);
            }))
  unfolding sign_track_link verify_track_link
  verify_track_link-sign trip_id version ttl keys key issued now d c p h r =
      let sub = encode_track_sub trip_id version in
      let full : is_empty (id_of trip_id) ≡ false = ground arith in
      let (l, minted, opened) =
        mint-link_payload keys key sub (version_of version) (ttl_of ttl) issued now d
          (encode_track_sub-nonempty trip_id version full) h r in
      (
        l,
        ground (arith, d, full, encode_track_sub-trimmed trip_id version, minted),
        ground (
          arith,
          opened,
          encode_track_sub-unscoped trip_id version p,
          decode_track_sub-encode trip_id version c,
          full,
        ),
      )

  -- A link of a document is minted for a guest scope and opens for that scope to the document and
  -- the version of its trip, with its instants, at any time before the end of its term: where a
  -- secret is there, the document's identifier is not blank and neither begins with `share:` nor has
  -- a `~` at version 0, and the end is a date of the language.
  pub verify_share_link-sign :
      (scope : String) (id version ttl : Value) (keys : Keys) (key : String) (issued now : ℕ)
      → is_guest_scope (text scope) ≡ true
      → derive_track_secret k keys ≡ some key
      → is_clear (id_of id) (version_of version) ≡ true
      → strip share_sub_prefix (id_of id) ≡ none
      → now < issued + ttl_of ttl
      → (issued + ttl_of ttl) * 1000 ≤ date_range
      → (l : Link) × (sign_share_link k (text scope) id version keys ttl issued ≡ some l)
        × (verify_share_link k (text l.token) scope keys now
            ≡ some (record {
              shared = record {
                scope = scope;
                document_id = id_of id;
                version = version_of version;
              };
              iat = seconds issued;
              exp = seconds (issued + ttl_of ttl);
            }))
  unfolding sign_share_link verify_share_link
  verify_share_link-sign scope id version ttl keys key issued now g d c p h r =
      let full : is_empty (id_of id) ≡ false = ground arith in
      let trimmed : id_of (text (id_of id)) ≡ id_of id = id_of-trimmed id in
      let (sub, written, read) =
        decode_share_sub-encode scope (text (id_of id)) version g (ground (arith, trimmed))
          (ground (arith, trimmed)) in
      let (l, minted, opened) =
        mint-link_payload keys key sub (version_of version) (ttl_of ttl) issued now d
          (encode_share_sub-nonempty scope (text (id_of id)) version sub written) h r in
      (
        l,
        ground (arith, g, d, full, written, minted),
        ground (arith, g, opened, read, trimmed, eq_refl scope),
      )
