-- ===== src/Docs/Names.antt =====
-- Names of files and keys of the store: `sanitizeFilename`, `buildStorageKey`,
-- `validateDocumentUpload` and `normalizeDocumentStatus` of apps/api/src/documents.js.
use Prim.Native.Char.{code}
use Prim.Native.String.{[], ◌∷◌, ◌++◌}
use roadwisefleet.Prelude.{
  ℕ, zero, suc, String, List, any, Bool, true, false, not, ◌&&◌, ◌||◌, Option, none, some, ◌==◌,
  eqb, ltb, leb, if◌then◌else◌,
}
use roadwisefleet.Js.{Value, text, Runtime, to_text, is_nullish}
use roadwisefleet.Share.Cuts.{is_empty}

-- `[A-Za-z0-9._-]`
unfoldable pub is_plain : ℕ → Bool
is_plain c =
    (leb b'A' c && leb c b'Z')
    || (leb b'a' c && leb c b'z')
    || (leb b'0' c && leb c b'9')
    || eqb c b'.'
    || eqb c b'_'
    || eqb c b'-'

-- `s.replace(/[\u0000-\u001f\u007f]/g, '')`
unfoldable pub drop_controls : String → String
drop_controls [] = []
drop_controls (c ∷ s) =
    let rest = drop_controls s in if leb (code c) 31 || eqb (code c) 127 then rest else c ∷ rest

-- `s.replace(/[^A-Za-z0-9._-]+/g, '-')`, within a run of such characters or not
unfoldable pub dash_runs : Bool → String → String
dash_runs within [] = []
dash_runs true (c ∷ s) =
    let more = dash_runs true s in
    let rest = dash_runs false s in if is_plain (code c) then c ∷ rest else more
dash_runs false (c ∷ s) =
    let more = dash_runs true s in
    let rest = dash_runs false s in if is_plain (code c) then c ∷ rest else "-" ∷ more

-- `s.replace(/^c+/, '')` and `s.replace(/c+$/, '')`, for a character given by its number
unfoldable pub drop_leading : ℕ → String → String
drop_leading k [] = []
drop_leading k (c ∷ s) = let rest = drop_leading k s in if eqb (code c) k then rest else c ∷ s

unfoldable pub drop_trailing : ℕ → String → String
drop_trailing k [] = []
drop_trailing k (c ∷ s) =
    let rest = drop_trailing k s in if eqb (code c) k && is_empty rest then [] else c ∷ rest

-- `s.slice(0, n)` of a text of one unit for each character
unfoldable pub first_chars : ℕ → String → String
first_chars zero s = []
first_chars (suc n) [] = []
first_chars (suc n) (c ∷ s) = c ∷ first_chars n s

abbrev pub max_filename_length : ℕ
max_filename_length = 120

-- `sanitizeFilename(name)`, where `base` is the built-in `basename`
unfoldable pub sanitize_filename : (String → String) → Value → String
sanitize_filename base (text name) =
    let cleaned =
      drop_trailing b'-' (drop_leading b'-' (dash_runs false (drop_controls (base name)))) in
    first_chars max_filename_length (drop_leading b'.' cleaned)
sanitize_filename base _ = ""

-- `DOC_TYPES`, and `DOC_TYPES.includes(s)`
abbrev pub doc_types : List String
doc_types = List.◌∷◌ "ecmr" (
    List.◌∷◌ "pod" (
      List.◌∷◌ "invoice" (
        List.◌∷◌ "driver_license" (
          List.◌∷◌ "cpc" (
            List.◌∷◌ "medical"
              (List.◌∷◌ "insurance" (List.◌∷◌ "tacho_file" (List.◌∷◌ "e_irsaliye" List.[]))))))))

unfoldable pub is_doc_type : String → Bool
is_doc_type s = any (λ t. s == t) doc_types

-- `s.replace(/[^A-Za-z0-9._-]/g, '_')`; a character of two units is replaced twice.
unfoldable pub underscores : String → String
underscores [] = []
underscores (c ∷ s) =
    let rest = underscores s in
    if is_plain (code c)
    then c ∷ rest
    else if leb 65536 (code c)
    then "_" ∷ ("_" ∷ rest)
    else "_" ∷ rest

-- `segment(v)`, where `String(v ?? '')` is given
unfoldable pub segment : String → String
segment s = drop_leading b'.' (underscores s)

-- `a || b`
unfoldable pub or_other : String → String → String
or_other a b = if is_empty a then b else a

-- `DOC_TYPES.includes(docType) ? String(docType) : 'other'`
unfoldable pub safe_type : Value → String
safe_type (text s) = if is_doc_type s then s else "other"
safe_type _ = "other"

-- `String(v ?? '')`
abbrev pub text_of : Runtime → Value → String
text_of r v = if is_nullish v then "" else to_text r v

-- `buildStorageKey({ tripId, docType, id, filename })`, where `uuid` is the built-in random one
unfoldable pub build_storage_key :
    Runtime → (String → String) → String → Value → Value → Value → Value → String
build_storage_key r base uuid trip_id doc_type id filename =
    or_other (segment (text_of r trip_id)) "trip"
    ++ ("/"
        ∷ (safe_type doc_type
            ++ ("/"
                ∷ (or_other (segment (text_of r id)) uuid
                    ++ ("-" ∷ or_other (sanitize_filename base filename) "upload")))))

-- What `ALLOWED_MIME[mimeType]` gives: an extension, or what every object inherits.
pub data Extension : Type 0 where
  known : String → Extension
  inherited : Extension

-- The names that an object inherits from the language.
abbrev pub inherited_names : List String
inherited_names = List.◌∷◌ "constructor" (
    List.◌∷◌ "__proto__" (
      List.◌∷◌ "__defineGetter__" (
        List.◌∷◌ "__defineSetter__" (
          List.◌∷◌ "__lookupGetter__" (
            List.◌∷◌ "__lookupSetter__" (
              List.◌∷◌ "hasOwnProperty" (
                List.◌∷◌ "isPrototypeOf" (
                  List.◌∷◌ "propertyIsEnumerable" (
                    List.◌∷◌ "toLocaleString"
                      (List.◌∷◌ "toString" (List.◌∷◌ "valueOf" List.[])))))))))))

unfoldable pub extension_of : Value → Option Extension
extension_of (text s) =
    if s == "image/jpeg"
    then some (known "jpg")
    else if s == "image/png"
    then some (known "png")
    else if s == "image/webp"
    then some (known "webp")
    else if s == "image/heic"
    then some (known "heic")
    else if s == "image/heif"
    then some (known "heif")
    else if s == "application/pdf"
    then some (known "pdf")
    else if any (λ t. s == t) inherited_names
    then some inherited
    else none
extension_of _ = none

pub record Upload : Type 0 where
  pub doc_type : String
  pub filename : String
  pub mime_type : Value
  pub ext : Extension
  pub size : ℕ

pub data UploadReply : Type 0 where
  invalid_doc_type invalid_filename unsupported_type invalid_size file_too_large : UploadReply
  accepted : Upload → UploadReply

-- `typeof docType === 'string' ? docType : ''`
abbrev pub type_text : Value → String
type_text (text s) = s
type_text _ = ""

-- `validateDocumentUpload({ docType, filename, mimeType, size, maxBytes })`; the size is that of
-- the decoded bytes
unfoldable pub validate_document_upload :
    (String → String) → Value → Value → Value → ℕ → ℕ → UploadReply
validate_document_upload base doc_type filename mime_type size max_bytes =
    if not (is_doc_type (type_text doc_type))
    then invalid_doc_type
    else if is_empty (sanitize_filename base filename)
    then invalid_filename
    else elim (extension_of mime_type) [
      | none ↦ unsupported_type
      | some ext ↦
          if leb size 0
          then invalid_size
          else if ltb max_bytes size
          then file_too_large
          else accepted (record {
            doc_type = type_text doc_type;
            filename = sanitize_filename base filename;
            mime_type = mime_type;
            ext = ext;
            size = size;
          })
    ]
