-- ===== src/Docs/Stored.antt =====
-- What a request that makes a document stores (apps/api/src/documents.js).
use roadwisefleet.Prelude.{ℕ, ◌≤◌, String, ◌≡◌, true, false, Option, some, length}
use roadwisefleet.Js.{text}
use roadwisefleet.Share.Cuts.{is_empty}
use roadwisefleet.Trip.Tables.{truthy}
use roadwisefleet.Auth.Permissions.{Granted}
use roadwisefleet.Docs.Names.{Upload, Extension, is_doc_type, sanitize_filename, extension_of}
use roadwisefleet.Docs.Access.{DocumentTrip, can_upload_document}
use roadwisefleet.Docs.Capture.{Capture, ok, normalize_capture, is_within}
use roadwisefleet.Docs.Upload.{
  UploadBuiltins, decode_base64_upload, UploadBody, UploadsClient, CreateReply, created,
}
use roadwisefleet.Docs.Accepted.{pending_row}

module _ {S : Type 0} (c : UploadsClient S) (b : UploadBuiltins) where
  -- What a reply says: a document that is made is one of the trip, which is found in the
  -- organisation, by one who may upload to it; its bytes are those of the request, at least one and no
  -- more than allowed; its type is that of the request and one of the catalogue, its name is not empty
  -- once it is cleaned and its format is known; its position is on the earth; and the row that is
  -- made is the pending one of them. After any other reply nothing has changed.
  abbrev pub Stored :
      Option String
      → String
      → Option String
      → UploadBody
      → ℕ
      → Granted
      → Option String
      → S
      → S
      → CreateReply
      → Type 0
  Stored org_id trip_id new_id body max_bytes granted user_id s s' (created d bytes) =
      (org : String) × (t : DocumentTrip) × (doc_type : String) × (capture : Capture) × (truthy
          org_id
        ≡ some org)
      × (c.find_trip trip_id org s ≡ some t)
      × (can_upload_document granted user_id t.driver_id ≡ true)
      × (decode_base64_upload b.from_base64 body.data_base64 ≡ some bytes)
      × (1 ≤ length bytes)
      × (length bytes ≤ max_bytes)
      × (body.doc_type ≡ text doc_type)
      × (is_doc_type doc_type ≡ true)
      × (is_empty (sanitize_filename b.base body.filename) ≡ false)
      × ((ext : Extension) × (extension_of body.mime_type ≡ some ext))
      × (normalize_capture b.runtime b.parse b.now body.captured_at body.geo ≡ ok capture)
      × (is_within capture.capture_lat capture.capture_lng ≡ true)
      × (c.create (pending_row b trip_id new_id body doc_type capture) s ≡ (d, s'))
  Stored org_id trip_id new_id body max_bytes granted user_id s s' _ = s' ≡ s

  module _ (org_id : Option String) (trip_id : String) (new_id : Option String) (body : UploadBody)
      (max_bytes : ℕ) (granted : Granted) (user_id : Option String) (s : S) where
    abbrev Ends : CreateReply × S → Type 0
    Ends r = Stored org_id trip_id new_id body max_bytes granted user_id s r.1 r.0
