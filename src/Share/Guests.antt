-- ===== src/Share/Guests.antt =====
-- What a link of a document opens: apps/api/src/guest-share.js.
use roadwisefleet.Prelude.{
  ℕ, String, Bool, false, not, ◌||◌, Option, none, some, ◌==◌, eqb, if◌then◌else◌,
}
use roadwisefleet.Js.{Value, text}
use roadwisefleet.Share.Cuts.{is_empty}
use roadwisefleet.Share.Subjects.{id_of, is_guest_scope}
use roadwisefleet.Share.Links.{Link}
use roadwisefleet.Share.Urls.{public_guest_url}
use roadwisefleet.Share.Windows.{Window}

-- A document with the columns of its trip, and where its bytes are.
pub record GuestRow : Type 0 where
  pub id : String
  pub doc_type : String
  pub status : String
  pub storage_key : String
  pub trip : Window

-- `isShareableDocumentStatus(status)`, with `SHAREABLE_DOCUMENT_STATUSES`
unfoldable pub is_shareable : String → Bool
is_shareable status = status == "UPLOADED" || status == "VERIFIED"

-- `shareScopeForDocType(docType)`
unfoldable pub share_scope_for : String → String
share_scope_for doc_type = if doc_type == "invoice" then "invoice" else "document"

-- `scopeAllowsDocType(scope, docType)`
unfoldable pub scope_allows : Value → String → Bool
scope_allows (text scope) doc_type =
    if not (is_guest_scope (text scope)) || is_empty doc_type
    then false
    else if scope == "invoice"
    then doc_type == "invoice"
    else not (doc_type == "invoice")
scope_allows _ doc_type = false

-- `loadGuestDocument(prisma, { scope, documentId, version })`, where `find` is the client's
-- `document.findFirst` by id; every refusal is `not_found`.
unfoldable pub load_guest_document :
    (String → Option GuestRow) → Value → Value → Option ℕ → Option GuestRow
load_guest_document find scope document_id version =
    if not (is_guest_scope scope) || is_empty (id_of document_id)
    then none
    else elim (find (id_of document_id)) [
      | none ↦ none
      | some d ↦
          if not (scope_allows scope d.doc_type)
          then none
          else if not (is_shareable d.status)
          then none
          else elim version [
            | none ↦ some d
            | some v ↦ if not (eqb d.trip.track_link_version v) then none else some d
          ]
    ]

-- The answer of `shapeDocumentLink({ scope, link }, baseUrl)`.
pub record DocumentLink : Type 0 where
  pub scope : String
  pub token : String
  pub url : String
  pub expires_at : ℕ
  pub ttl_seconds : ℕ

-- `shapeDocumentLink({ scope, link }, baseUrl)`, with the built-in encoding; `none` where it throws
unfoldable pub shape_document_link : (String → String) → String → Link → Value → Option DocumentLink
shape_document_link encode scope l base_url =
    elim (public_guest_url encode base_url scope l.token) [
      | none ↦ none
      | some url ↦ some (record {
        scope = scope;
        token = l.token;
        url = url;
        expires_at = l.expires_at;
        ttl_seconds = l.ttl_seconds;
      })
    ]
