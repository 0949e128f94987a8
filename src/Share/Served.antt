-- ===== src/Share/Served.antt =====
-- Which documents a guest is served (apps/api/src/guest-share.js).
use roadwisefleet.Prelude.{
  ℕ, String, ◌≡◌, ◌↔◌, ◌⊎◌, inl, inr, refl, ◌∙◌, true, false, ◌||◌, Option, some, ◌==◌, eqb, eq_iff,
  arith, Bool-cases,
}
use roadwisefleet.Js.{text}
use roadwisefleet.Share.Cuts.{is_empty}
use roadwisefleet.Share.Subjects.{id_of, is_guest_scope}
use roadwisefleet.Share.Guests.{
  GuestRow, is_shareable, share_scope_for, scope_allows, load_guest_document,
}

-- A type of document has exactly one scope.
scope_allows-share_scope :
    (scope doc_type : String)
    → is_empty doc_type ≡ false
    → scope_allows (text scope) doc_type ≡ (scope == share_scope_for doc_type)
unfolding scope_allows share_scope_for is_guest_scope
scope_allows-share_scope scope doc_type h =
    let apart : ("document" == "invoice") ≡ false = refl in
    elim (Bool-cases (doc_type == "invoice")) [
      | inl e ↦
          rw (e, h)
            (ground (
              arith,
              e,
              h,
              apart,
              eq_iff scope "invoice",
              eq_iff scope "document",
              eq_iff "document" "invoice",
            ))
      | inr e ↦
          rw (e, h)
            (ground (
              arith,
              e,
              h,
              apart,
              eq_iff scope "invoice",
              eq_iff scope "document",
              eq_iff "document" "invoice",
            ))
    ]

share_scope_for_guest :
    (doc_type : String) → is_guest_scope (text (share_scope_for doc_type)) ≡ true
unfolding share_scope_for is_guest_scope
share_scope_for_guest doc_type = elim (Bool-cases (doc_type == "invoice")) [
  | inl e ↦ rw e refl
  | inr e ↦ rw e refl
]

scope_guest :
    (scope doc_type : String)
    → scope_allows (text scope) doc_type ≡ true
    → is_guest_scope (text scope) ≡ true
unfolding scope_allows
scope_guest scope doc_type e = ground arith

-- A guest is served a document for a scope and a version exactly if it is the document of that
-- identifier, of a type that the scope has, with its bytes stored and not rejected, and its trip's
-- links are at that version.
pub load_guest_document_iff :
    (find : String → Option GuestRow) (scope id : String) (v : ℕ) (d : GuestRow)
    → is_empty d.doc_type ≡ false
    → (load_guest_document find (text scope) (text id) (some v) ≡ some d) ↔ (
        (is_empty (id_of (text id)) ≡ false)
        × (find (id_of (text id)) ≡ some d)
        × (scope ≡ share_scope_for d.doc_type)
        × ((d.status ≡ "UPLOADED") ⊎ (d.status ≡ "VERIFIED"))
        × (d.trip.track_link_version ≡ v))
unfolding load_guest_document is_shareable
load_guest_document_iff find scope id v d h =
    let allows = scope_allows-share_scope scope d.doc_type h in
    (
      λ e. ground (
        arith,
        allows,
        e,
        eq_iff scope (share_scope_for d.doc_type),
        eq_iff d.status "UPLOADED",
        eq_iff d.status "VERIFIED",
      ),
      λ (a, b, s, u, w).
          let right : scope_allows (text scope) d.doc_type ≡ true =
            allows ∙ (eq_iff scope (share_scope_for d.doc_type)).1 s in
          let guest : is_guest_scope (text scope) ≡ true = scope_guest scope d.doc_type right in
          let status : (d.status == "UPLOADED" || d.status == "VERIFIED") ≡ true =
            ground (arith, u, eq_iff d.status "UPLOADED", eq_iff d.status "VERIFIED") in
          let version : eqb d.trip.track_link_version v ≡ true = ground (arith, w) in
          rw (guest, a, b) (rw (right, status, version) refl),
    )
