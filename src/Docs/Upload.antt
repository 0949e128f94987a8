-- ===== src/Docs/Upload.antt =====
-- The making of a document: `decodeBase64Upload` and `createDocument` of apps/api/src/documents.js.
use roadwisefleet.Prelude.{
  ℕ, String, not, ◌||◌, Option, none, some, List, length, is_some, if◌then◌else◌,
}
use roadwisefleet.Js.{Value, text, Runtime}
use roadwisefleet.Share.Cuts.{is_empty, cut_first, strip}
use roadwisefleet.Trip.Tables.{truthy}
use roadwisefleet.Auth.Permissions.{Granted}
use roadwisefleet.Gps.Points.{DateParser}
use roadwisefleet.Docs.Names.{
  Upload, UploadReply, accepted, validate_document_upload, build_storage_key,
}
use roadwisefleet.Docs.Access.{DocumentTrip, StoredDocument, can_upload_document}
use roadwisefleet.Docs.Capture.{
  Geo, Capture, CaptureError, CaptureReply, ok, invalid_capture, normalize_capture,
}

-- What the program calls of the language: `Runtime`, `Date.parse`, `basename`,
-- `Buffer.from(payload, 'base64')` and `randomUUID`; and the clock.
pub record UploadBuiltins : Type 0 where
  pub runtime : Runtime
  pub parse : DateParser
  pub base : String → String
  pub from_base64 : String → List ℕ
  pub uuid : String
  pub now : ℕ

unfoldable pub nonempty_bytes : List ℕ → Option (List ℕ)
nonempty_bytes List.[] = none
nonempty_bytes (List.◌∷◌ b bs) = some (List.◌∷◌ b bs)

-- What stands behind the comma of a `data:` address, or the whole text.
unfoldable pub payload_of : String → String
payload_of s = elim (cut_first b',' s) [
  | none ↦ s
  | some (a, b) ↦ if is_some (strip "data:" s) then b else s
]

-- `decodeBase64Upload(dataBase64)`
unfoldable pub decode_base64_upload : (String → List ℕ) → Value → Option (List ℕ)
decode_base64_upload from_base64 (text s) =
    if is_empty s || is_empty (payload_of s)
    then none
    else nonempty_bytes (from_base64 (payload_of s))
decode_base64_upload from_base64 _ = none

-- The body of the request.
pub record UploadBody : Type 0 where
  pub data_base64 : Value
  pub doc_type : Value
  pub filename : Value
  pub mime_type : Value
  pub captured_at : Value
  pub geo : Geo

-- The row to make.
pub record NewDocument : Type 0 where
  pub id : String
  pub trip_id : String
  pub doc_type : String
  pub storage_key : String
  pub status : String
  pub capture : Capture

-- `trip.findFirst({ where: { id, orgId } })` and `document.create({ data })`.
pub record UploadsClient {ℓ} (S : Type ℓ) : Type ℓ where
  pub find_trip : String → String → S → Option DocumentTrip
  pub create : NewDocument → S → StoredDocument × S

pub data CreateReply : Type 0 where
  no_org not_found forbidden invalid_upload : CreateReply
  refused_upload : UploadReply → CreateReply
  refused_capture : CaptureError → CreateReply
  created : StoredDocument → List ℕ → CreateReply

-- `newId ?? randomUUID()`
abbrev pub id_or_new : UploadBuiltins → Option String → String
id_or_new b none = b.uuid
id_or_new b (some id) = id

unfoldable pub new_document :
    UploadBuiltins → String → Option String → Upload → Capture → NewDocument
new_document b trip_id new_id u capture = record {
  id = id_or_new b new_id;
  trip_id = trip_id;
  doc_type = u.doc_type;
  storage_key =
      build_storage_key b.runtime b.base b.uuid (text trip_id) (text u.doc_type)
        (text (id_or_new b new_id)) (text u.filename);
  status = "PENDING";
  capture = capture;
}

module _ {ℓ} {S : Type ℓ} (c : UploadsClient S) (b : UploadBuiltins) where
  -- The end of the request, once the file and the capture are judged.
  unfoldable pub store :
      String → Option String → List ℕ → Upload → CaptureReply Capture → S → CreateReply × S
  store trip_id new_id bytes u (invalid_capture e) s = (refused_capture e, s)
  store trip_id new_id bytes u (ok capture) s =
      let (d, s') = c.create (new_document b trip_id new_id u capture) s in (created d bytes, s')

  unfoldable pub judge :
      String → Option String → UploadBody → List ℕ → UploadReply → S → CreateReply × S
  unfolding store
  judge trip_id new_id body bytes (accepted u) s =
      store trip_id new_id bytes u
        (normalize_capture b.runtime b.parse b.now body.captured_at body.geo) s
  judge trip_id new_id body bytes reply s = (refused_upload reply, s)

  unfoldable pub read_body :
      String → Option String → UploadBody → ℕ → Option (List ℕ) → S → CreateReply × S
  unfolding judge
  read_body trip_id new_id body max_bytes none s = (invalid_upload, s)
  read_body trip_id new_id body max_bytes (some bytes) s =
      judge trip_id new_id body bytes
        (validate_document_upload b.base body.doc_type body.filename body.mime_type (length bytes)
          max_bytes)
        s

  unfoldable pub on_trip :
      String
      → Option String
      → UploadBody
      → ℕ
      → Granted
      → Option String
      → Option DocumentTrip
      → S
      → CreateReply × S
  unfolding read_body
  on_trip trip_id new_id body max_bytes granted user_id none s = (not_found, s)
  on_trip trip_id new_id body max_bytes granted user_id (some t) s =
      if not (can_upload_document granted user_id t.driver_id)
      then (forbidden, s)
      else read_body trip_id new_id body max_bytes
          (decode_base64_upload b.from_base64 body.data_base64) s

  -- `createDocument(prisma, { orgId, tripId, body, actor, maxBytes, newId })`
  unfoldable pub create_document :
      Option String
      → String
      → Option String
      → UploadBody
      → ℕ
      → Granted
      → Option String
      → S
      → CreateReply × S
  unfolding on_trip
  create_document org_id trip_id new_id body max_bytes granted user_id s = elim (truthy org_id) [
    | none ↦ (no_org, s)
    | some org ↦ on_trip trip_id new_id body max_bytes granted user_id (c.find_trip trip_id org s) s
  ]
