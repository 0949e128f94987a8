-- ===== src/Share/Revoked.antt =====
-- What revoking does to the links of a trip (apps/api/src/routes/track.ts).
use mathlib.Core.Path.{subst}
use roadwisefleet.Prelude.{
  ℕ, suc, ◌+◌, ◌*◌, ◌≤◌, String, ◌≡◌, refl, sym, ap, ◌∙◌, none, some, List, [], ◌∷◌, ◌==◌, eq_iff,
  arith, Option-cases, Bool-cases, inl, inr,
}
use roadwisefleet.Prelude.Text.{trim}
use roadwisefleet.Js.{Value, text}
use roadwisefleet.Share.Tokens.{Codec}
use roadwisefleet.Share.Links.{Keys, Link, sign_track_link}
use roadwisefleet.Share.Windows.{Window, whole}
use roadwisefleet.Share.Tracked.{
  TrackedRow, WindowUpdate, set_window, revoke_window, LinksClient, load_tracked_trip,
}
use roadwisefleet.Share.Routes.{
  after_update, row_after, IsLinksClient, Asker, Answer, sent, own_trip, mint_link, revoke_link,
  LinkRequest, mint_request, revoke_request, mint_for, revoke_for, serve_link, serve_links,
}

module _ {ℓ} {S : Type ℓ} (c : LinksClient S) (lawful : IsLinksClient c) where
  -- The trip is there, and its links have moved on to this version at least.
  abbrev pub Reached : String → ℕ → S → Type 0
  Reached id v s =
      (t : TrackedRow) × (c.find_trip id s ≡ some t) × (v ≤ t.window.track_link_version)

  Reached-update :
      (id other : String) (v : ℕ) (u : WindowUpdate) (s : S)
      → Reached id v s
      → Reached id v (c.update_trip other u s)
  Reached-update id other v u s (t, e, h) = elim (Bool-cases (id == other)) [
    | inl same ↦
        let same_id : id ≡ other = (eq_iff id other).0 same in
        (
          record t { window = after_update u t.window },
          subst
              (λ z.
                c.find_trip id (c.update_trip z u s)
                ≡ some (record t { window = after_update u t.window }))
              same_id (lawful.find-update id u s ∙ ap (row_after u) e),
          after_later u t.window h,
        )
    | inr apart ↦ (
      t,
      lawful.find-update_other other id u s (λ z. ground (arith, apart, eq_iff id other, z)) ∙ e,
      h,
    )
  ]
    where
      after_later :
          (u : WindowUpdate) (w : Window)
          → v ≤ w.track_link_version
          → v ≤ (after_update u w).track_link_version
      after_later (set_window a b) w h = h
      after_later revoke_window w h = omega arith

  module _ (k : Codec) (keys : Keys) (ttl : Value) where
    pub mint_for-Reached :
        (id : String) (v : ℕ) (a : Answer TrackedRow) (now : ℕ) (s : S)
        → Reached id v s
        → Reached id v (mint_for c k keys ttl a now s).1
    unfolding mint_for
    mint_for-Reached id v (sent t) now s h =
        elim (Option-cases
          (sign_track_link k (text t.window.id) (whole t.window.track_link_version) keys ttl now)) [
            | inl thrown ↦ rw (thrown, mint_for) h
            | inr (l, e) ↦
                rw (e, mint_for)
                  (Reached-update id t.window.id v
                    (set_window (now * 1000) ((now + l.ttl_seconds) * 1000)) s h)
          ]
    mint_for-Reached id v _ now s h = h

    revoke_for-Reached :
        (id : String) (v : ℕ) (a : Answer TrackedRow) (s : S)
        → Reached id v s
        → Reached id v (revoke_for c k keys ttl a s).1
    unfolding revoke_for
    revoke_for-Reached id v (sent t) s h = Reached-update id t.window.id v revoke_window s h
    revoke_for-Reached id v _ s h = h

    serve_link-Reached :
        (id : String) (v : ℕ) (s : S) (r : LinkRequest)
        → Reached id v s
        → Reached id v (serve_link c k keys ttl s r)
    unfolding serve_link mint_link revoke_link
    serve_link-Reached id v s (mint_request who i now) h =
        mint_for-Reached id v (own_trip c k keys ttl who i s) now s h
    serve_link-Reached id v s (revoke_request who i) h =
        revoke_for-Reached id v (own_trip c k keys ttl who i s) s h

    pub serve_links-Reached :
        (id : String) (v : ℕ) (s : S) (rs : List LinkRequest)
        → Reached id v s
        → Reached id v (serve_links c k keys ttl s rs)
    unfolding serve_links
    serve_links-Reached id v s [] h = h
    serve_links-Reached id v s (r ∷ rs) h =
        serve_links-Reached id v (serve_link c k keys ttl s r) rs (serve_link-Reached id v s r h)

    pub own_trip_found :
        (who : Asker) (id : String) (s : S) (t : TrackedRow)
        → own_trip c k keys ttl who id s ≡ sent t
        → (c.find_trip id s ≡ some t) × (t.window.id ≡ id)
    unfolding own_trip
    own_trip_found who id s t e = elim (Option-cases who.org_id) [
      | inl missing ↦ absurd (ground (arith, missing))
      | inr (org, member) ↦ lawful.own_found id org s t (ground (arith, member))
    ]

    -- Revoking a trip that is found moves its version on.
    revoke_for-Reached_next :
        (id : String) (v : ℕ) (a : Answer TrackedRow) (s : S)
        → ((t : TrackedRow) → a ≡ sent t → (c.find_trip id s ≡ some t) × (t.window.id ≡ id))
        → (revoke_for c k keys ttl a s).0 ≡ sent tt
        → Reached id v s
        → Reached id (suc v) (revoke_for c k keys ttl a s).1
    unfolding revoke_for
    revoke_for-Reached_next id v (sent t) s own e (t', f, h) =
        let (g, same) = own t refl in
        let later : suc v ≤ suc t.window.track_link_version = ground (arith, f, g, h) in
        (
          record t { window = after_update revoke_window t.window },
          subst
              (λ z.
                c.find_trip id (c.update_trip z revoke_window s)
                ≡ some (record t { window = after_update revoke_window t.window }))
              (sym same) (lawful.find-update id revoke_window s ∙ ap (row_after revoke_window) g),
          later,
        )
    revoke_for-Reached_next id v _ s own e h = absurd (ground (arith, e))

    pub revoke_link-Reached :
        (who : Asker) (id : String) (v : ℕ) (s : S)
        → (revoke_link c k keys ttl who id s).0 ≡ sent tt
        → Reached id v s
        → Reached id (suc v) (revoke_link c k keys ttl who id s).1
    unfolding revoke_link
    revoke_link-Reached who id v s e h =
        revoke_for-Reached_next id v (own_trip c k keys ttl who id s) s (own_trip_found who id s) e
          h

    -- The link that a request mints.
    pub mint_for_sent :
        (a : Answer TrackedRow) (now : ℕ) (s : S) (l : Link)
        → (mint_for c k keys ttl a now s).0 ≡ sent l
        → (t : TrackedRow) × (a ≡ sent t)
          × (sign_track_link k (text t.window.id) (whole t.window.track_link_version) keys ttl now
              ≡ some l)
    unfolding mint_for
    mint_for_sent (sent t) now s l e = (t, refl, ground (arith, e))
    mint_for_sent _ now s l e = absurd (ground (arith, e))

    -- A trip whose links have moved on does not open for an older version.
    pub load_stale :
        (id : String) (v : ℕ) (s : S)
        → trim id ≡ id
        → Reached id (suc v) s
        → load_tracked_trip c id (some v) s ≡ none
    unfolding load_tracked_trip
    load_stale id v s e (t, f, h) =
        let there : c.find_trip (trim id) s ≡ some t = ap (λ z. c.find_trip z s) e ∙ f in
        ground (arith, there, h)
