-- ===== src/Tests/Papers.antt =====
-- Examples on the names of documents.
use roadwisefleet.Prelude.{
  ◌≤◌, ◌*◌, String, List, ◌==◌, ◌&&◌, if◌then◌else◌, none, any, some, ◌≡◌, refl, true, [], ◌∷◌,
}
use roadwisefleet.Js.{undefined, text, number, plus, million}
use roadwisefleet.Share.Cuts.{is_empty, holds, split}
use roadwisefleet.Docs.Names.{
  extension_of, inherited, is_plain, drop_controls, dash_runs, drop_leading, drop_trailing,
  first_chars, sanitize_filename, build_storage_key,
}
use roadwisefleet.Docs.Safe.{all_plain, begins_not, length_of, sanitize_filename-safe}
use roadwisefleet.Docs.Keys.{slash, IsPart, build_storage_key-parts}
use roadwisefleet.Docs.Access.{StoredDocument}
use roadwisefleet.Docs.Capture.{geo}
use roadwisefleet.Docs.Upload.{UploadsClient, UploadBuiltins, UploadBody}
use roadwisefleet.Docs.Stored.{Stored}
use roadwisefleet.Tests.Data.{runtime}

sanitize_filename-safe_example :
    (all_plain (sanitize_filename (λ s. s) (text "--..my scan (1).pdf")) ≡ true)
    × (begins_not b'.' (sanitize_filename (λ s. s) (text "--..my scan (1).pdf")) ≡ true)
    × (length_of (sanitize_filename (λ s. s) (text "--..my scan (1).pdf")) ≤ 120)
sanitize_filename-safe_example = sanitize_filename-safe (λ s. s) (text "--..my scan (1).pdf")

cleaned : sanitize_filename (λ s. s) (text "--..my scan (1).pdf") ≡ "my-scan-1-.pdf"
unfolding sanitize_filename first_chars drop_leading drop_trailing dash_runs drop_controls is_plain
    is_empty
cleaned = refl

IsPart-uuid : IsPart "0a1b"
unfolding is_empty begins_not holds
IsPart-uuid = record { nonempty = refl; no_dot = refl; no_slash = refl }

build_storage_key-parts_example :
    (a t n : String) × (split slash (
        build_storage_key runtime
          (λ s. s)
          "0a1b"
          (text "../t1")
          (text "pod")
          undefined
          (text "a/b"))
      ≡ (a, t ∷ n ∷ []))
    × IsPart a
    × IsPart t
    × IsPart n
build_storage_key-parts_example =
    build_storage_key-parts runtime (λ s. s) "0a1b" (text "../t1") (text "pod") undefined
      (text "a/b") IsPart-uuid

-- A type that is no type of a file, but a name that every object inherits, is accepted.
inherited_type : extension_of (text "toString") ≡ some inherited
unfolding extension_of any
inherited_type = refl

abbrev uploads : UploadsClient (List StoredDocument)
uploads = record {
  find_trip = λ id org s.
      if id == "t1" && org == "o1"
      then some (record { org_id = "o1"; driver_id = some "d1" })
      else none;
  create = λ n s.
      let d : StoredDocument = record {
        id = n.id;
        trip_id = n.trip_id;
        doc_type = n.doc_type;
        status = n.status;
      } in
      (d, d ∷ s);
}

abbrev upload_builtins : UploadBuiltins
upload_builtins = record {
  runtime = runtime;
  parse = λ s. none;
  base = λ s. s;
  from_base64 = λ s. 37 ∷ 80 ∷ [];
  uuid = "0a1b";
  now = 1000;
}

abbrev pod_body : UploadBody
pod_body = record {
  data_base64 = text "data:application/pdf;base64,JVA=";
  doc_type = text "pod";
  filename = text "proof.pdf";
  mime_type = text "application/pdf";
  captured_at = number (plus (900 * million));
  geo = geo (λ k. number (plus (50 * million)));
}
