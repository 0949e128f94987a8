-- ===== src/Share/Minted.antt =====
-- What becomes of a minted tracking link (apps/api/src/track-link.js).
use roadwisefleet.Prelude.{
  ℕ, ◌+◌, ◌*◌, ◌≤◌, String, ◌≡◌, sym, ap, ◌∙◌, true, none, some, ltb, leb, arith, Option-cases,
  Bool-cases, inl, inr, if◌then◌else◌,
}
use roadwisefleet.Js.{Value, text}
use roadwisefleet.Gps.Points.{date_range}
use roadwisefleet.Share.Cuts.{strip}
use roadwisefleet.Share.Subjects.{id_of, version_of, share_sub_prefix, encode_track_sub}
use roadwisefleet.Share.RoundTrip.{is_clear}
use roadwisefleet.Share.Tokens.{Payload, Codec, IsCodec, issue, sign_token, verify_token}
use roadwisefleet.Share.Signed.{verify_token-late}
use roadwisefleet.Share.Links.{
  ttl_of, Keys, Link, link_claims, derive_track_secret, mint, sign_track_link, link_payload,
  verify_track_link,
}
use roadwisefleet.Share.Opened.{seconds, verify_track_link-sign}

module _ (k : Codec) (law : IsCodec k) where
  -- A minted link rests on a key, and ends at a date.
  mint_key :
      (trip_id version ttl : Value) (keys : Keys) (issued : ℕ) (l : Link)
      → sign_track_link k trip_id version keys ttl issued ≡ some l
      → (key : String) × (derive_track_secret k keys ≡ some key)
        × (mint k key
              (encode_track_sub (text (id_of trip_id)) version)
              (version_of version)
              (ttl_of ttl)
              issued
            ≡ some l)
  unfolding sign_track_link
  mint_key trip_id version ttl keys issued l e = elim (Option-cases (derive_track_secret k keys)) [
    | inl missing ↦ absurd (ground (arith, missing))
    | inr (key, d) ↦ (key, d, ground (arith, d))
  ]

  mint_token :
      (key sub : String) (version ttl issued : ℕ) (l : Link)
      → mint k key sub version ttl issued ≡ some l
      → ((issued + ttl) * 1000 ≤ date_range)
        × (l.token
            ≡ issue k (record { claims = link_claims sub; iat = issued; exp = issued + ttl }) key)
  unfolding mint sign_token
  mint_token key sub version ttl issued l e =
      elim (Bool-cases (leb ((issued + ttl) * 1000) date_range)) [
        | inl fits ↦ (ground arith, ground (arith, fits))
        | inr late ↦ absurd (ground (arith, late))
      ]

  open_late :
      (token key : String) (p : Payload) (keys : Keys) (now : ℕ)
      → derive_track_secret k keys ≡ some key
      → token ≡ issue k p key
      → p.exp ≤ now
      → verify_track_link k (text token) keys now ≡ none
  unfolding verify_track_link link_payload
  open_late token key p keys now d e h =
      let refused : verify_token k (text token) key now ≡ none =
        ap (λ z. verify_token k (text z) key now) e ∙ verify_token-late k law p key now h in
      ground (arith, d, refused)

  -- A link minted for an id that is not blank, does not begin with `share:` and, at version 0, has
  -- no `~`, is refused from the end of its term on, and opens to its trip before.
  pub opened_or_not :
      (trip_id version ttl : Value) (keys : Keys) (issued now : ℕ) (l : Link)
      → sign_track_link k trip_id version keys ttl issued ≡ some l
      → is_clear (id_of trip_id) (version_of version) ≡ true
      → strip share_sub_prefix (id_of trip_id) ≡ none
      → verify_track_link k (text l.token) keys now ≡ (
          if ltb now (issued + ttl_of ttl)
          then some (record {
            subject = record { trip_id = id_of trip_id; version = version_of version };
            iat = seconds issued;
            exp = seconds (issued + ttl_of ttl);
          })
          else none)
  opened_or_not trip_id version ttl keys issued now l e c p =
      let (key, d, minted) = mint_key trip_id version ttl keys issued l e in
      let (r, t) =
        mint_token key (encode_track_sub (text (id_of trip_id)) version) (version_of version)
          (ttl_of ttl) issued l minted in
      elim (Bool-cases (ltb now (issued + ttl_of ttl))) [
        | inl early ↦
            let (l', e', opened) =
              verify_track_link-sign k law trip_id version ttl keys key issued now d c p
                (ground arith) r in
            let same : l'.token ≡ l.token = ground (arith, sym e' ∙ e) in
            rw early (ap (λ z. verify_track_link k (text z) keys now) (sym same) ∙ opened)
        | inr late ↦ rw late (
            open_late l.token key
              (record {
                claims = link_claims (encode_track_sub (text (id_of trip_id)) version);
                iat = issued;
                exp = issued + ttl_of ttl;
              })
              keys now d t (ground arith))
      ]
