-- ===== src/Share/Dead.antt =====
-- A link that was handed out before its trip's links were revoked (apps/api/src/routes/track.ts).
use roadwisefleet.Prelude.{
  ℕ, suc, ◌+◌, String, ◌≡◌, sym, ap, ◌∙◌, true, false, none, some, List, ltb, arith, if◌then◌else◌,
}
use roadwisefleet.Prelude.Text.{trim}
use roadwisefleet.Js.{Value, text}
use roadwisefleet.Share.Cuts.{is_empty, strip, holds}
use roadwisefleet.Share.Subjects.{Subject, id_of, version_of, version_sep, share_sub_prefix}
use roadwisefleet.Share.RoundTrip.{is_clear}
use roadwisefleet.Share.Tokens.{Codec, IsCodec}
use roadwisefleet.Share.Links.{ttl_of, Keys, Link, sign_track_link, verify_track_link}
use roadwisefleet.Share.Opened.{seconds}
use roadwisefleet.Share.Minted.{opened_or_not}
use roadwisefleet.Share.Windows.{whole}
use roadwisefleet.Share.Tracked.{LinksClient}
use roadwisefleet.Share.Routes.{
  IsLinksClient, Asker, sent, own_trip, mint_link, revoke_link, open_link, LinkRequest, serve_links,
}
use roadwisefleet.Share.Revoked.{
  Reached, own_trip_found, mint_for_sent, mint_for-Reached, serve_links-Reached,
  revoke_link-Reached, load_stale,
}

-- An identifier as the database makes them: no space around it, and nothing that a subject gives a
-- meaning to.
pub record IsId (id : String) : Type 0 where
  pub is_trimmed : trim id ≡ id
  pub nonempty : is_empty id ≡ false
  pub no_separator : holds version_sep id ≡ false
  pub no_prefix : strip share_sub_prefix id ≡ none

abbrev subject : String → ℕ → Subject
subject id v = record { trip_id = id; version = v }

version_of-whole : (v : ℕ) → version_of (whole v) ≡ v
version_of-whole v = ground arith

module _ {ℓ} {S : Type ℓ} (c : LinksClient S) (lawful : IsLinksClient c) (k : Codec)
    (law : IsCodec k) (keys : Keys) (ttl : Value) where
  -- A minted link opens to its trip at the version that the row had.
  minted_opens :
      (id : String) (v issued now : ℕ) (l : Link)
      → IsId id
      → sign_track_link k (text id) (whole v) keys ttl issued ≡ some l
      → verify_track_link k (text l.token) keys now ≡ (
          if ltb now (issued + ttl_of ttl)
          then some (record {
            subject = record { trip_id = id; version = v };
            iat = seconds issued;
            exp = seconds (issued + ttl_of ttl);
          })
          else none)
  minted_opens id v issued now l i e =
      let version : version_of (whole v) ≡ v = version_of-whole v in
      let clear : is_clear (id_of (text id)) (version_of (whole v)) ≡ true =
        ap (λ z. is_clear z (version_of (whole v))) i.is_trimmed
        ∙ ground (arith, i.nonempty, i.no_separator) in
      opened_or_not k law (text id) (whole v) ttl keys issued now l e clear
        (ap (strip share_sub_prefix) i.is_trimmed ∙ i.no_prefix)
      ∙ ap
          (λ z.
            if ltb now (issued + ttl_of ttl)
            then some
                (record { subject = z; iat = seconds issued; exp = seconds (issued + ttl_of ttl) })
            else none)
          (same_subject (trim id) (version_of (whole v)) i.is_trimmed version)
    where
      same_subject : (a : String) (n : ℕ) → a ≡ id → n ≡ v → subject a n ≡ subject id v
      same_subject a n e f = ap (λ z. subject z n) e ∙ ap (subject id) f

  open_stale :
      (id : String) (v issued now : ℕ) (l : Link) (s : S)
      → IsId id
      → sign_track_link k (text id) (whole v) keys ttl issued ≡ some l
      → Reached c lawful id (suc v) s
      → open_link c k keys ttl (text l.token) now s ≡ none
  unfolding open_link
  open_stale id v issued now l s i e h = ground (
    arith,
    minted_opens id v issued now l i e,
    load_stale c lawful k keys ttl id v s i.is_trimmed h,
  )

  -- Once a trip's links are revoked, no link that was minted for it before opens any more, at any
  -- time and whatever minting and revoking came in between and after: where the trip's identifier
  -- is one that the database makes.
  pub revoked_link_stays_shut :
      (minter revoker : Asker) (id : String) (issued now : ℕ) (s : S) (l : Link)
      (before after : List LinkRequest)
      → IsId id
      → (mint_link c k keys ttl minter id issued s).0 ≡ sent l
      → let here = serve_links c k keys ttl (mint_link c k keys ttl minter id issued s).1 before in
        (revoke_link c k keys ttl revoker id here).0 ≡ sent tt
        → open_link c k keys ttl
            (text l.token)
            now
            (serve_links c k keys ttl (revoke_link c k keys ttl revoker id here).1 after)
          ≡ none
  unfolding mint_link
  revoked_link_stays_shut minter revoker id issued now s l before after i m r =
      let (t, own, signed) =
        mint_for_sent c lawful k keys ttl (own_trip c k keys ttl minter id s) issued s l m in
      let (found, same) = own_trip_found c lawful k keys ttl minter id s t own in
      let v = t.window.track_link_version in
      let minted : Reached c lawful id v (mint_link c k keys ttl minter id issued s).1 =
        mint_for-Reached c lawful k keys ttl id v (own_trip c k keys ttl minter id s) issued s
          (t, found, omega arith) in
      let s1 = (mint_link c k keys ttl minter id issued s).1 in
      let s2 = serve_links c k keys ttl s1 before in
      let s3 = (revoke_link c k keys ttl revoker id s2).1 in
      let moved =
        revoke_link-Reached c lawful k keys ttl revoker id v s2 r
          (serve_links-Reached c lawful k keys ttl id v s1 before minted) in
      open_stale id v issued now l (serve_links c k keys ttl s3 after) i
        (ap (λ z. sign_track_link k (text z) (whole v) keys ttl issued) (sym same) ∙ signed)
        (serve_links-Reached c lawful k keys ttl id (suc v) s3 after moved)
