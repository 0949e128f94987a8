-- ===== src/Share/Routes.antt =====
-- The life of a trip's link: the requests of apps/api/src/routes/track.ts that mint, show, revoke
-- and open it. Signing in is left to the caller: a request has the organisation of its user, and
-- whether the role may manage trips.
use roadwisefleet.Prelude.{
  ℕ, suc, ◌+◌, ◌*◌, String, ◌≡◌, ◌≢◌, Bool, not, Option, none, some, List, [], ◌∷◌, if◌then◌else◌,
}
use roadwisefleet.Js.{Value, text}
use roadwisefleet.Share.Tokens.{Codec}
use roadwisefleet.Share.Links.{Keys, Link, sign_track_link, verify_track_link}
use roadwisefleet.Share.Windows.{Window, whole, reconstruct_track_link}
use roadwisefleet.Share.Tracked.{
  TrackedRow, PublicTrip, WindowUpdate, set_window, revoke_window, LinksClient, load_tracked_trip,
}

-- The row after an update.
abbrev pub after_update : WindowUpdate → Window → Window
after_update (set_window issued expires) w = record w {
  track_link_issued_at = some issued;
  track_link_expires_at = some expires;
}
after_update revoke_window w = record w {
  track_link_version = suc w.track_link_version;
  track_link_issued_at = none;
  track_link_expires_at = none;
}

abbrev pub row_after : WindowUpdate → Option TrackedRow → Option TrackedRow
row_after u none = none
row_after u (some t) = some (record t { window = after_update u t.window })

-- The documented behaviour of the client: an update changes the row of its id alone, and what is
-- found in an organisation is found by its id, which is the row's.
pub record IsLinksClient {ℓ} {S : Type ℓ} (c : LinksClient S) : Type ℓ where
  pub find-update :
      (id : String) (u : WindowUpdate) (s : S)
      → c.find_trip id (c.update_trip id u s) ≡ row_after u (c.find_trip id s)
  pub find-update_other :
      (id other : String) (u : WindowUpdate) (s : S)
      → other ≢ id
      → c.find_trip other (c.update_trip id u s) ≡ c.find_trip other s
  pub own_found :
      (id org : String) (s : S) (t : TrackedRow)
      → c.find_own_trip id org s ≡ some t
      → (c.find_trip id s ≡ some t) × (t.window.id ≡ id)

-- Who asks.
pub record Asker : Type 0 where
  pub org_id : Option String
  pub may_manage : Bool

-- The refusals, and what is answered.
pub data Answer {ℓ} (A : Type ℓ) : Type ℓ where
  no_org forbidden not_found failed : Answer A
  sent : A → Answer A

-- The requests that write.
pub data LinkRequest : Type 0 where
  mint_request : Asker → String → ℕ → LinkRequest
  revoke_request : Asker → String → LinkRequest

module _ {ℓ} {S : Type ℓ} (c : LinksClient S) (k : Codec) (keys : Keys) (ttl : Value) where
  -- The checks that the three requests on a trip's link share.
  unfoldable pub own_trip : Asker → String → S → Answer TrackedRow
  own_trip who id s = elim who.org_id [
    | none ↦ no_org
    | some org ↦
        if not who.may_manage
        then forbidden
        else elim (c.find_own_trip id org s) [ none ↦ not_found | some t ↦ sent t ]
  ]

  -- What minting does once the trip is found, the time in seconds; it may throw.
  unfoldable pub mint_for : Answer TrackedRow → ℕ → S → Answer Link × S
  mint_for no_org now s = (no_org, s)
  mint_for forbidden now s = (forbidden, s)
  mint_for not_found now s = (not_found, s)
  mint_for failed now s = (failed, s)
  mint_for (sent t) now s =
      elim (sign_track_link k (text t.window.id) (whole t.window.track_link_version) keys ttl now) [
        | none ↦ (failed, s)
        | some l ↦ (
          sent l,
          c.update_trip t.window.id (set_window (now * 1000) ((now + l.ttl_seconds) * 1000)) s,
        )
      ]

  -- POST /trips/:id/track-link
  unfoldable pub mint_link : Asker → String → ℕ → S → Answer Link × S
  mint_link who id now s = mint_for (own_trip who id s) now s

  -- GET /trips/:id/track-link, the time in milliseconds
  unfoldable pub show_link : Asker → String → ℕ → S → Answer (Option Link)
  show_link who id now s = elim (own_trip who id s) [
    | no_org ↦ no_org
    | forbidden ↦ forbidden
    | not_found ↦ not_found
    | failed ↦ failed
    | sent t ↦ elim (reconstruct_track_link k t.window keys now) [ none ↦ failed | some l ↦ sent l ]
  ]

  unfoldable pub revoke_for : Answer TrackedRow → S → Answer (Unit {0}) × S
  revoke_for no_org s = (no_org, s)
  revoke_for forbidden s = (forbidden, s)
  revoke_for not_found s = (not_found, s)
  revoke_for failed s = (failed, s)
  revoke_for (sent t) s = (sent tt, c.update_trip t.window.id revoke_window s)

  -- DELETE /trips/:id/track-link
  unfoldable pub revoke_link : Asker → String → S → Answer (Unit {0}) × S
  revoke_link who id s = revoke_for (own_trip who id s) s

  -- GET /track/:token, the time in seconds; every refusal is the same. The answer has
  -- the end of the link, as the token has it.
  unfoldable pub open_link : Value → ℕ → S → Option (PublicTrip × Value)
  open_link token now s = elim (verify_track_link k token keys now) [
    | none ↦ none
    | some o ↦ elim (load_tracked_trip c o.subject.trip_id (some o.subject.version) s) [
      | none ↦ none
      | some t ↦ some (t, o.exp)
    ]
  ]

  unfoldable pub serve_link : S → LinkRequest → S
  serve_link s (mint_request who id now) = (mint_link who id now s).1
  serve_link s (revoke_request who id) = (revoke_link who id s).1

  unfoldable pub serve_links : S → List LinkRequest → S
  serve_links s [] = s
  serve_links s (r ∷ rs) = serve_links (serve_link s r) rs
