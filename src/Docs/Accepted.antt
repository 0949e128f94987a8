-- ===== src/Docs/Accepted.antt =====
-- What an upload that is accepted has from its request, and the row that is made of it
-- (apps/api/src/documents.js).
use roadwisefleet.Prelude.{
  ℕ, ◌≤◌, String, ◌≡◌, refl, sym, ap, ◌∙◌, true, false, ◌||◌, inl, inr, Option, none, some, List,
  length, arith, ltb, leb, Bool-cases, Option-cases, any,
}
use roadwisefleet.Js.{Value, undefined, null, bool, number, text, other}
use roadwisefleet.Share.Cuts.{is_empty}
use roadwisefleet.Docs.Names.{
  Upload, Extension, build_storage_key, accepted, type_text, is_doc_type, sanitize_filename,
  extension_of, validate_document_upload,
}
use roadwisefleet.Docs.Capture.{Capture}
use roadwisefleet.Docs.Upload.{
  UploadBuiltins, nonempty_bytes, payload_of, decode_base64_upload, UploadBody, NewDocument,
  new_document,
}

nonempty_bytes-length : (bs cs : List ℕ) → nonempty_bytes bs ≡ some cs → 1 ≤ length cs
unfolding nonempty_bytes
nonempty_bytes-length List.[] cs h = absurd (ground (arith, h))
nonempty_bytes-length (List.◌∷◌ b bs) List.[] h = absurd (ground (arith, h))
nonempty_bytes-length (List.◌∷◌ b bs) (List.◌∷◌ c cs) h = omega arith

pub decode_base64_upload-length :
    (from_base64 : String → List ℕ) (v : Value) (bs : List ℕ)
    → decode_base64_upload from_base64 v ≡ some bs
    → 1 ≤ length bs
unfolding decode_base64_upload
decode_base64_upload-length from_base64 (text s) bs h =
    elim (Bool-cases (is_empty s || is_empty (payload_of s))) [
      | inl blank ↦ absurd (ground (arith, h, blank))
      | inr full ↦ nonempty_bytes-length (from_base64 (payload_of s)) bs (ground (arith, h, full))
    ]
decode_base64_upload-length from_base64 undefined bs h = absurd (ground (arith, h))
decode_base64_upload-length from_base64 null bs h = absurd (ground (arith, h))
decode_base64_upload-length from_base64 (bool x) bs h = absurd (ground (arith, h))
decode_base64_upload-length from_base64 (number x) bs h = absurd (ground (arith, h))
decode_base64_upload-length from_base64 (other x) bs h = absurd (ground (arith, h))

-- What an upload that is accepted has from the request.
pub record IsAccepted (base : String → String) (body : UploadBody) (size max_bytes : ℕ) (u : Upload)
    : Type 0 where
  pub is_type : body.doc_type ≡ text u.doc_type
  pub is_known : is_doc_type u.doc_type ≡ true
  pub is_name : u.filename ≡ sanitize_filename base body.filename
  pub is_named : is_empty (sanitize_filename base body.filename) ≡ false
  pub mime : (ext : Extension) × (extension_of body.mime_type ≡ some ext)
  pub fits : size ≤ max_bytes

no_type : is_doc_type "" ≡ false
unfolding is_doc_type any
no_type = refl

is_doc_type-text : (v : Value) → is_doc_type (type_text v) ≡ true → v ≡ text (type_text v)
is_doc_type-text (text s) h = refl
is_doc_type-text undefined h = absurd (ground (arith, h, no_type))
is_doc_type-text null h = absurd (ground (arith, h, no_type))
is_doc_type-text (bool x) h = absurd (ground (arith, h, no_type))
is_doc_type-text (number x) h = absurd (ground (arith, h, no_type))
is_doc_type-text (other x) h = absurd (ground (arith, h, no_type))

pub validate_document_upload-IsAccepted :
    (base : String → String) (body : UploadBody) (size max_bytes : ℕ) (u : Upload)
    → validate_document_upload base body.doc_type body.filename body.mime_type size max_bytes
      ≡ accepted u
    → IsAccepted base body size max_bytes u
unfolding validate_document_upload
validate_document_upload-IsAccepted base body size max_bytes u h =
    elim (Bool-cases (is_doc_type (type_text body.doc_type))) [
      | inr wrong ↦ absurd (ground (arith, h, wrong))
      | inl right ↦ elim (Bool-cases (is_empty (sanitize_filename base body.filename))) [
        | inl blank ↦ absurd (ground (arith, h, right, blank))
        | inr named ↦ elim (Option-cases (extension_of body.mime_type)) [
          | inl unknown ↦ absurd (ground (arith, h, right, named, unknown))
          | inr (ext, known) ↦ elim (Bool-cases (leb size 0)) [
            | inl none_given ↦ absurd (ground (arith, h, right, named, known, none_given))
            | inr given ↦ elim (Bool-cases (ltb max_bytes size)) [
              | inl large ↦ absurd (ground (arith, h, right, named, known, given, large))
              | inr fits ↦
                  let typed : type_text body.doc_type ≡ u.doc_type =
                    ground (arith, h, right, named, known, given, fits) in
                  let filed : sanitize_filename base body.filename ≡ u.filename =
                    ground (arith, h, right, named, known, given, fits) in
                  record {
                    is_type = is_doc_type-text body.doc_type right ∙ ap text typed;
                    is_known = ap is_doc_type (sym typed) ∙ right;
                    is_name = sym filed;
                    is_named = named;
                    mime = (ext, known);
                    fits = ground (arith, fits);
                  }
            ]
          ]
        ]
      ]
    ]

-- The row of a request: the id that the caller gives or a new one, the key of that id under the
-- trip and the type, with the cleaned name, and the status of a document nobody has looked at.
abbrev pub pending_row :
    UploadBuiltins → String → Option String → UploadBody → String → Capture → NewDocument
pending_row b trip_id new_id body doc_type capture =
    let id : String = elim new_id [ none ↦ b.uuid | some i ↦ i ] in
    record {
      id = id;
      trip_id = trip_id;
      doc_type = doc_type;
      storage_key =
          build_storage_key b.runtime b.base b.uuid (text trip_id) (text doc_type) (text id)
            (text (sanitize_filename b.base body.filename));
      status = "PENDING";
      capture = capture;
    }

pub new_document-pending :
    (b : UploadBuiltins) (trip_id : String) (new_id : Option String) (body : UploadBody)
    (u : Upload) (capture : Capture)
    → u.filename ≡ sanitize_filename b.base body.filename
    → new_document b trip_id new_id u capture ≡ pending_row b trip_id new_id body u.doc_type capture
unfolding new_document
new_document-pending b trip_id none body u capture e = rw e
new_document-pending b trip_id (some i) body u capture e = rw e
