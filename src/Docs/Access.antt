-- ===== src/Docs/Access.antt =====
-- Who may do what with a trip's documents: `canUploadDocument`, `canManageDocuments`,
-- `canViewTripDocuments`, `listTripDocuments` and `updateDocumentStatus` of
-- apps/api/src/documents.js. The database client is a parameter.
use roadwisefleet.Prelude.{
  String, ◌≡◌, Bool, true, false, not, ◌&&◌, ◌||◌, Option, none, some, List, ◌==◌, same, arith, inl,
  inr, Option-cases, if◌then◌else◌,
}
use roadwisefleet.Trip.Tables.{truthy}
use roadwisefleet.Auth.Permissions.{Granted, has_permission}

-- `typeof userId === 'string' && userId.length > 0 && userId === tripDriverId`
unfoldable pub is_trip_driver : Option String → Option String → Bool
is_trip_driver none driver_id = false
is_trip_driver (some u) driver_id = not (u == "") && same (some u) driver_id

-- `canUploadDocument({ granted, userId, tripDriverId })`
unfoldable pub can_upload_document : Granted → Option String → Option String → Bool
can_upload_document granted user_id driver_id =
    has_permission granted "trip:*"
    || has_permission granted "pod:upload" && is_trip_driver user_id driver_id

-- `canManageDocuments(granted)`
unfoldable pub can_manage_documents : Granted → Bool
can_manage_documents granted = has_permission granted "trip:*"

-- `canViewTripDocuments({ granted, userId, tripDriverId })`
unfoldable pub can_view_trip_documents : Granted → Option String → Option String → Bool
can_view_trip_documents granted user_id driver_id =
    has_permission granted "trip:*"
    || has_permission granted "trip:read" && is_trip_driver user_id driver_id

-- The reply of a request on documents.
pub data DocumentReply {ℓ} (A : Type ℓ) : Type ℓ where
  no_org not_found forbidden invalid_status : DocumentReply A
  ok : A → DocumentReply A

-- A trip and a document, as the requests read them.
pub record DocumentTrip : Type 0 where
  pub org_id : String
  pub driver_id : Option String

pub record StoredDocument : Type 0 where
  pub id : String
  pub trip_id : String
  pub doc_type : String
  pub status : String

-- `trip.findFirst({ where: { id, orgId } })`, `document.findMany` of a trip in the order of making,
-- `document.findFirst({ where: { id, trip: { orgId } } })`, and `document.update` by id.
pub record DocumentsClient {ℓ} (S : Type ℓ) : Type ℓ where
  pub find_trip : String → String → S → Option DocumentTrip
  pub documents_of : String → S → List StoredDocument
  pub find_document : String → String → S → Option StoredDocument
  pub set_status : String → String → S → StoredDocument × S

-- `normalizeDocumentStatus(value)`, of `String(value ?? '')`; `upper` is the built-in
-- `toUpperCase`.
unfoldable pub normalize_document_status : (String → String) → String → Option String
normalize_document_status upper value =
    if upper value == "VERIFIED" || upper value == "REJECTED" then some (upper value) else none

module _ {ℓ} {S : Type ℓ} (c : DocumentsClient S) where
  -- `listTripDocuments(prisma, { orgId, tripId, actor })`
  unfoldable pub list_trip_documents :
      Option String → String → Granted → Option String → S → DocumentReply (List StoredDocument)
  list_trip_documents org_id trip_id granted user_id s = elim (truthy org_id) [
    | none ↦ no_org
    | some org ↦ elim (c.find_trip trip_id org s) [
      | none ↦ not_found
      | some t ↦
          if can_view_trip_documents granted user_id t.driver_id
          then ok (c.documents_of trip_id s)
          else forbidden
    ]
  ]

  -- `updateDocumentStatus(prisma, { orgId, documentId, status, actor })`
  unfoldable pub update_document_status :
      (String → String)
      → Option String
      → String
      → String
      → Granted
      → S
      → DocumentReply StoredDocument × S
  update_document_status upper org_id document_id status granted s = elim (truthy org_id) [
    | none ↦ (no_org, s)
    | some org ↦
        if not (can_manage_documents granted)
        then (forbidden, s)
        else elim (normalize_document_status upper status) [
          | none ↦ (invalid_status, s)
          | some next ↦ elim (c.find_document document_id org s) [
            | none ↦ (not_found, s)
            | some d ↦ let (updated, s1) = c.set_status document_id next s in (ok updated, s1)
          ]
        ]
  ]

  -- Who is shown the documents of a trip manages trips, or drives this one and may read trips.
  list_trip_documents-viewer :
      (org_id : Option String) (trip_id : String) (granted : Granted) (user_id : Option String)
      (s : S) (ds : List StoredDocument)
      → list_trip_documents org_id trip_id granted user_id s ≡ ok ds
      → (org : String) × (t : DocumentTrip) × (c.find_trip trip_id org s ≡ some t)
        × (can_view_trip_documents granted user_id t.driver_id ≡ true)
  unfolding list_trip_documents
  list_trip_documents-viewer org_id trip_id granted user_id s ds e =
      elim (Option-cases (truthy org_id)) [
        | inl missing ↦ absurd (ground (arith, missing, e))
        | inr (org, member) ↦ elim (Option-cases (c.find_trip trip_id org s)) [
          | inl lost ↦ absurd (ground (arith, member, lost, e))
          | inr (t, found) ↦ (org, t, found, ground (arith, member, found, e))
        ]
      ]
