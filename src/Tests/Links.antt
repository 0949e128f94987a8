-- ===== src/Tests/Links.antt =====
-- Examples on signed links.
use roadwisefleet.Prelude.{
  ◌↔◌, ◌⊎◌, ◌+◌, ◌*◌, ◌≡◌, refl, ap, ◌∙◌, true, false, none, some, [], ◌∷◌, ◌==◌, arith,
  if◌then◌else◌,
}
use roadwisefleet.Prelude.Text.{trim, trim_start, trim_end}
use roadwisefleet.Js.{undefined, text}
use roadwisefleet.Share.Cuts.{holds, strip, is_empty}
use roadwisefleet.Share.Subjects.{is_guest_scope}
use roadwisefleet.Share.Tokens.{Claims}
use roadwisefleet.Share.Links.{
  Keys, Link, SharedLink, derive_track_secret, ttl_of, sign_track_link, verify_track_link,
  sign_share_link, verify_share_link,
}
use roadwisefleet.Share.Opened.{seconds, verify_track_link-sign, verify_share_link-sign}
use roadwisefleet.Share.Minted.{opened_or_not}
use roadwisefleet.Share.Windows.{whole}
use roadwisefleet.Share.Tracked.{TrackedRow, set_window}
use roadwisefleet.Share.Routes.{
  revoke_for, Asker, sent, own_trip, mint_for, mint_link, show_link, revoke_link, open_link,
  mint_request, serve_links,
}
use roadwisefleet.Share.Dead.{IsId, revoked_link_stays_shut}
use roadwisefleet.Share.Shown.{mint_for_state, show_link-minted}
use roadwisefleet.Share.Guests.{share_scope_for, GuestRow, load_guest_document}
use roadwisefleet.Share.Served.{load_guest_document_iff}
use roadwisefleet.Share.Plain.{plain, plain-IsCodec}
use roadwisefleet.Share.Memory.{Trips, keyed_trips, keyed_trips-IsLinksClient}

abbrev row : TrackedRow
row = record {
  window = record {
    id = "t1";
    org_id = "o1";
    track_link_version = 2;
    track_link_issued_at = none;
    track_link_expires_at = none;
  };
  status = "DRAFT";
  tracking = false;
  order = none;
  status_events = [];
  gps_pings = [];
}

abbrev trips : Trips
trips x = if x == "t1" then some row else none

abbrev keys : Keys
keys = record { auth_secret = text "a"; secret = text "k" }

abbrev owner : Asker
owner = record { org_id = some "o1"; may_manage = true }

abbrev claims : Claims
claims = record { sub = "u1"; org = some "o.1"; role = none; name = some "A, B" }

derived : derive_track_secret plain keys ≡ some "k"
unfolding derive_track_secret is_empty trim trim_start trim_end
derived = refl

-- A link of a trip, and one of a document.
made :
    (l : Link) × (sign_track_link plain (text "t1") (whole 2) keys undefined 1000 ≡ some l)
    × (verify_track_link plain (text l.token) keys 2000
        ≡ some (record {
          subject = record { trip_id = "t1"; version = 2 };
          iat = seconds 1000;
          exp = seconds 2593000;
        }))
unfolding is_empty trim trim_start trim_end strip holds
made =
    verify_track_link-sign plain plain-IsCodec (text "t1") (whole 2) undefined keys "k" 1000 2000
      derived refl refl (omega arith) (omega arith)

verify_share_link-sign_example :
    (l : Link) × (sign_share_link plain (text "invoice") (text "d1") (whole 2) keys undefined 1000
      ≡ some l)
    × (verify_share_link plain (text l.token) "invoice" keys 2000
        ≡ some (record {
          shared = record { scope = "invoice"; document_id = "d1"; version = 2 };
          iat = seconds 1000;
          exp = seconds 2593000;
        }))
unfolding is_empty trim trim_start trim_end strip holds is_guest_scope
verify_share_link-sign_example =
    verify_share_link-sign plain plain-IsCodec "invoice" (text "d1") (whole 2) undefined keys "k"
      1000 2000 refl derived refl refl (omega arith) (omega arith)

opened_or_not_example : verify_track_link plain (text made.0.token) keys 2593000 ≡ none
unfolding is_empty trim trim_start trim_end strip holds
opened_or_not_example =
    opened_or_not plain plain-IsCodec (text "t1") (whole 2) undefined keys 1000 2593000 made.0
      made.1 refl refl

IsId-t1 : IsId "t1"
unfolding is_empty trim trim_start trim_end strip holds
IsId-t1 = record { is_trimmed = refl; nonempty = refl; no_separator = refl; no_prefix = refl }

mint_gives :
    (l : Link)
    → sign_track_link plain (text "t1") (whole 2) keys undefined 1000 ≡ some l
    → (mint_link keyed_trips plain keys undefined owner "t1" 1000 trips).0 ≡ sent l
unfolding mint_link mint_for own_trip
mint_gives l e = ground (arith, e)

minted : (mint_link keyed_trips plain keys undefined owner "t1" 1000 trips).0 ≡ sent made.0
minted = mint_gives made.0 made.1

abbrev after_minting : Trips
after_minting = (mint_link keyed_trips plain keys undefined owner "t1" 1000 trips).1

abbrev new_row : TrackedRow
new_row = record row {
  window = record row.window {
    track_link_issued_at = some 1000000;
    track_link_expires_at = some 2593000000;
  };
}

owned : own_trip keyed_trips plain keys undefined owner "t1" trips ≡ sent row
unfolding own_trip
owned = refl

after_is :
    after_minting
    ≡ keyed_trips.update_trip "t1"
        (set_window (1000 * 1000) ((1000 + ttl_of undefined) * 1000))
        trips
unfolding mint_link
after_is =
    mint_for_state keyed_trips keyed_trips-IsLinksClient plain keys undefined
      (own_trip keyed_trips plain keys undefined owner "t1" trips) 1000 trips made.0 row owned
      made.1

owned_then :
    own_trip keyed_trips plain keys undefined owner "t1" (
      keyed_trips.update_trip "t1"
        (set_window (1000 * 1000) ((1000 + ttl_of undefined) * 1000))
        trips)
    ≡ sent new_row
unfolding own_trip
owned_then = refl

found_again : own_trip keyed_trips plain keys undefined owner "t1" after_minting ≡ sent new_row
found_again = ap (own_trip keyed_trips plain keys undefined owner "t1") after_is ∙ owned_then

show_link-minted_example :
    show_link keyed_trips plain keys undefined owner "t1" 2000000 after_minting ≡ sent (some made.0)
show_link-minted_example =
    show_link-minted keyed_trips keyed_trips-IsLinksClient plain keys undefined owner owner "t1"
      1000 2000000 trips made.0 new_row minted found_again (omega arith) (omega arith)

revoke_gives :
    (s : Trips) (t : TrackedRow)
    → own_trip keyed_trips plain keys undefined owner "t1" s ≡ sent t
    → (revoke_link keyed_trips plain keys undefined owner "t1" s).0 ≡ sent tt
unfolding revoke_link revoke_for
revoke_gives s t e = ground (arith, e)

-- The link is minted anew after it was revoked.
revoked_link_stays_shut_example :
    open_link keyed_trips plain keys undefined (text made.0.token) 2000 (
      serve_links keyed_trips plain keys undefined
        (revoke_link keyed_trips plain keys undefined owner "t1" after_minting).1
        (mint_request owner "t1" 1500 ∷ []))
    ≡ none
unfolding serve_links
revoked_link_stays_shut_example =
    revoked_link_stays_shut keyed_trips keyed_trips-IsLinksClient plain plain-IsCodec keys undefined
      owner owner "t1" 1000 2000 trips made.0 [] (mint_request owner "t1" 1500 ∷ []) IsId-t1 minted
      (revoke_gives after_minting new_row found_again)

abbrev paper : GuestRow
paper = record {
  id = "d1";
  doc_type = "pod";
  status = "VERIFIED";
  storage_key = "k";
  trip = row.window;
}

abbrev invoice_link : SharedLink
invoice_link = record {
  shared = record { scope = "invoice"; document_id = "d1"; version = 2 };
  iat = seconds 1000;
  exp = seconds 2593000;
}

made_invoice :
    (l : Link) × (sign_share_link plain (text "invoice") (text "d1") (whole 2) keys undefined 1000
      ≡ some l)
    × (verify_share_link plain (text l.token) "invoice" keys 2000 ≡ some invoice_link)
unfolding is_empty trim trim_start trim_end strip holds is_guest_scope
made_invoice =
    verify_share_link-sign plain plain-IsCodec "invoice" (text "d1") (whole 2) undefined keys "k"
      1000 2000 refl derived refl refl (omega arith) (omega arith)

load_guest_document_iff_example :
    (load_guest_document (λ _. some paper) (text "document") (text "d1") (some 2) ≡ some paper) ↔ (
      ((is_empty "d1") ≡ false)
      × (some paper ≡ some paper)
      × ("document" ≡ share_scope_for paper.doc_type)
      × ((paper.status ≡ "UPLOADED") ⊎ (paper.status ≡ "VERIFIED"))
      × (paper.trip.track_link_version ≡ 2))
unfolding is_empty trim trim_start trim_end
load_guest_document_iff_example =
    load_guest_document_iff (λ _. some paper) "document" "d1" 2 paper refl
