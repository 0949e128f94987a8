-- ===== src/Share/Shown.antt =====
-- The link that is computed again from a trip's row (apps/api/src/routes/track.ts,
-- apps/api/src/track-link.js).
use roadwisefleet.Prelude.{
  ℕ, ◌+◌, ◌-◌, ◌*◌, ◌/◌, ◌<◌, String, ◌≡◌, refl, sym, ap, ◌∙◌, true, false, some, ltb, leb, lt→ltb,
  arith, Option-cases, inl, inr, if◌then◌else◌,
}
use roadwisefleet.Js.{Value, text}
use roadwisefleet.Share.Tokens.{Codec}
use roadwisefleet.Share.Links.{ttl_of, Keys, Link, derive_track_secret, mint, sign_track_link}
use roadwisefleet.Share.Windows.{
  Window, whole, window_seconds, is_track_link_active, reconstruct_track_link,
}
use roadwisefleet.Share.Tracked.{TrackedRow, set_window, LinksClient}
use roadwisefleet.Share.Routes.{
  after_update, row_after, IsLinksClient, Asker, Answer, sent, own_trip, mint_for, mint_link,
  show_link,
}
use roadwisefleet.Share.Revoked.{own_trip_found, mint_for_sent}

-- The window that minting writes gives back the term.
window_seconds-written :
    (issued ttl : ℕ) → 0 < ttl → window_seconds (issued * 1000) ((issued + ttl) * 1000) ≡ ttl
window_seconds-written issued ttl h =
    let e : ((issued + ttl) * 1000 - issued * 1000 + 500) / 1000 ≡ ttl = omega arith in
    rw e (above_zero ttl h)
  where
    above_zero : (n : ℕ) → 0 < n → (if ltb 1 n then n else 1) ≡ n
    above_zero n h = ground arith

ttl_of-whole : (n : ℕ) → 0 < n → ttl_of (whole n) ≡ n
ttl_of-whole n h = ground arith

gt→leb : (a b : ℕ) → b < a → leb a b ≡ false
gt→leb a b h = ground arith

module _ (k : Codec) where
  -- Signing looks at the term's seconds alone.
  sign_ttl :
      (id version : Value) (keys : Keys) (a b : Value) (issued : ℕ)
      → ttl_of a ≡ ttl_of b
      → sign_track_link k id version keys a issued ≡ sign_track_link k id version keys b issued
  unfolding sign_track_link
  sign_ttl id version keys a b issued e = elim (Option-cases (derive_track_secret k keys)) [
    | inl missing ↦ ground (arith, missing)
    | inr (key, d) ↦ ground (arith, d, e)
  ]

  sign_term :
      (id version : Value) (keys : Keys) (ttl : Value) (issued : ℕ) (l : Link)
      → sign_track_link k id version keys ttl issued ≡ some l
      → l.ttl_seconds ≡ ttl_of ttl
  unfolding sign_track_link mint
  sign_term id version keys ttl issued l e = ground arith

  reconstruct_row :
      (w : Window) (keys : Keys) (issued expires now : ℕ) (l : Link)
      → ltb now expires ≡ true
      → leb expires issued ≡ false
      → sign_track_link k
          (text w.id)
          (whole w.track_link_version)
          keys
          (whole (window_seconds issued expires))
          (issued / 1000)
        ≡ some l
      → reconstruct_track_link k (after_update (set_window issued expires) w) keys now
        ≡ some (some l)
  unfolding reconstruct_track_link is_track_link_active
  reconstruct_row w keys issued expires now l live forth e = rw (live, forth, e) refl

  -- The link of a window that was just written.
  reconstruct_written :
      (w : Window) (keys : Keys) (ttl : Value) (issued now : ℕ) (l : Link)
      → sign_track_link k (text w.id) (whole w.track_link_version) keys ttl issued ≡ some l
      → 0 < ttl_of ttl
      → now < (issued + ttl_of ttl) * 1000
      → reconstruct_track_link k
          (after_update (set_window (issued * 1000) ((issued + ttl_of ttl) * 1000)) w)
          keys
          now
        ≡ some (some l)
  reconstruct_written w keys ttl issued now l e h t =
      let n = ttl_of ttl in
      let seconds : window_seconds (issued * 1000) ((issued + n) * 1000) ≡ n =
        window_seconds-written issued n h in
      let start : issued * 1000 / 1000 ≡ issued = omega arith in
      let same : ttl_of (whole (window_seconds (issued * 1000) ((issued + n) * 1000))) ≡ n =
        ap (λ z. ttl_of (whole z)) seconds ∙ ttl_of-whole n h in
      let signed : sign_track_link k (text w.id) (whole w.track_link_version) keys
            (whole (window_seconds (issued * 1000) ((issued + n) * 1000))) (issued * 1000 / 1000)
          ≡ some l =
        ap
          (sign_track_link k (text w.id) (whole w.track_link_version) keys
            (whole (window_seconds (issued * 1000) ((issued + n) * 1000))))
          start
        ∙ sign_ttl (text w.id) (whole w.track_link_version) keys
            (whole (window_seconds (issued * 1000) ((issued + n) * 1000))) ttl issued same
        ∙ e in
      reconstruct_row w keys (issued * 1000) ((issued + n) * 1000) now l
        (lt→ltb now ((issued + n) * 1000) t) (not_le issued n h) signed
    where
      not_le : (i n : ℕ) → 0 < n → leb ((i + n) * 1000) (i * 1000) ≡ false
      not_le i n h = gt→leb ((i + n) * 1000) (i * 1000) (omega arith)

module _ {ℓ} {S : Type ℓ} (c : LinksClient S) (lawful : IsLinksClient c) (k : Codec) (keys : Keys)
    (ttl : Value) where
  -- The tables after minting.
  pub mint_for_state :
      (a : Answer TrackedRow) (issued : ℕ) (s : S) (l : Link) (t : TrackedRow)
      → a ≡ sent t
      → sign_track_link k (text t.window.id) (whole t.window.track_link_version) keys ttl issued
        ≡ some l
      → (mint_for c k keys ttl a issued s).1
        ≡ c.update_trip t.window.id (set_window (issued * 1000) ((issued + ttl_of ttl) * 1000)) s
  unfolding mint_for
  mint_for_state a issued s l t e f =
      ap (λ z. (mint_for c k keys ttl z issued s).1) e
      ∙ rw (f, mint_for)
          (ap (λ z. c.update_trip t.window.id (set_window (issued * 1000) ((issued + z) * 1000)) s)
            (sign_term k (text t.window.id) (whole t.window.track_link_version) keys ttl issued l
              f))

  -- The window after minting, to whom it is shown.
  minted_window :
      (minter viewer : Asker) (id : String) (issued : ℕ) (s : S) (l : Link) (t t' : TrackedRow)
      → own_trip c k keys ttl minter id s ≡ sent t
      → sign_track_link k (text t.window.id) (whole t.window.track_link_version) keys ttl issued
        ≡ some l
      → own_trip c k keys ttl viewer id (mint_link c k keys ttl minter id issued s).1 ≡ sent t'
      → t'.window
        ≡ after_update (set_window (issued * 1000) ((issued + ttl_of ttl) * 1000)) t.window
  unfolding mint_link
  minted_window minter viewer id issued s l t t' own e shown =
      let after = (mint_link c k keys ttl minter id issued s).1 in
      let u = set_window (issued * 1000) ((issued + ttl_of ttl) * 1000) in
      let (found, same) = own_trip_found c lawful k keys ttl minter id s t own in
      let (found', same') = own_trip_found c lawful k keys ttl viewer id after t' shown in
      let row : c.find_trip id after ≡ row_after u (c.find_trip id s) =
        ap (c.find_trip id) (
          mint_for_state (own_trip c k keys ttl minter id s) issued s l t own e
          ∙ ap (λ z. c.update_trip z u s) same)
        ∙ lawful.find-update id u s in
      some_window (sym found' ∙ row ∙ ap (row_after u) found)
    where
      some_window : {a b : TrackedRow} → some a ≡ some b → a.window ≡ b.window
      some_window {a} {b} e =
          let f : a ≡ b = ground (arith, e) in ap (λ (z : TrackedRow). z.window) f

  show_own :
      (viewer : Asker) (id : String) (now : ℕ) (s : S) (l : Link) (t : TrackedRow)
      → own_trip c k keys ttl viewer id s ≡ sent t
      → reconstruct_track_link k t.window keys now ≡ some (some l)
      → show_link c k keys ttl viewer id now s ≡ sent (some l)
  unfolding show_link
  show_own viewer id now s l t e f = ground (arith, e, f)

  -- The link that is shown for a trip after it was minted, to anybody whom the trip is shown to, is
  -- the one that was minted, byte for byte, until its term ends: where the term is not empty.
  pub show_link-minted :
      (minter viewer : Asker) (id : String) (issued now : ℕ) (s : S) (l : Link) (t : TrackedRow)
      → (mint_link c k keys ttl minter id issued s).0 ≡ sent l
      → let after = (mint_link c k keys ttl minter id issued s).1 in
        own_trip c k keys ttl viewer id after ≡ sent t
        → 0 < ttl_of ttl
        → now < (issued + ttl_of ttl) * 1000
        → show_link c k keys ttl viewer id now after ≡ sent (some l)
  unfolding mint_link
  show_link-minted minter viewer id issued now s l t m v h n =
      let (t0, own, signed) =
        mint_for_sent c lawful k keys ttl (own_trip c k keys ttl minter id s) issued s l m in
      let w = minted_window minter viewer id issued s l t0 t own signed v in
      let again : reconstruct_track_link k t.window keys now ≡ some (some l) =
        ap (λ z. reconstruct_track_link k z keys now) w
        ∙ reconstruct_written k t0.window keys ttl issued now l signed h n in
      show_own viewer id now (mint_link c k keys ttl minter id issued s).1 l t v again
