-- ===== src/Docs/Keys.antt =====
-- The keys of the store cannot lead out of it (apps/api/src/documents.js).
use Prim.Native.Char.{code}
use Prim.Native.String.{[], ◌∷◌, ◌++◌}
use package.text.Mathlib.TextLemmas.{cons-append}
use roadwisefleet.Prelude.{
  ℕ, String, ◌≡◌, refl, sym, ap, ◌∙◌, inl, inr, true, false, List, All, any, ◌==◌, eq_iff, eqb, leb,
  arith, Bool-cases,
}
use roadwisefleet.Js.{Value, text, Runtime}
use roadwisefleet.Share.Cuts.{is_empty, holds, split, split-append, split-none, holds-append}
use roadwisefleet.Docs.Names.{
  doc_types, is_plain, sanitize_filename, is_doc_type, underscores, segment, or_other, safe_type,
  text_of, build_storage_key,
}
use roadwisefleet.Docs.Safe.{
  all_plain, begins_not, drop_leading-plain, drop_leading-begins, sanitize_filename-safe,
}

abbrev pub slash : ℕ
slash = b'/'

-- A part of a path that names something below: not empty, without a dot in front, and in itself no
-- path.
pub record IsPart (s : String) : Type 0 where
  pub nonempty : is_empty s ≡ false
  pub no_dot : begins_not b'.' s ≡ true
  pub no_slash : holds slash s ≡ false

slash_not_plain : is_plain slash ≡ false
unfolding is_plain
slash_not_plain = refl

code_slash : (n : ℕ) → eqb n slash ≡ true → is_plain n ≡ false
code_slash n h =
    let e : slash ≡ n = omega (arith, eqb_eq n h) in ap is_plain (sym e) ∙ slash_not_plain
  where
    eqb_eq : (n : ℕ) → eqb n slash ≡ true → n ≡ slash
    eqb_eq n h = ground arith

no_slash : (s : String) → all_plain s ≡ true → holds slash s ≡ false
unfolding all_plain holds
no_slash [] h = refl
no_slash (c ∷ s) h = elim (Bool-cases (eqb (code c) slash)) [
  | inl e ↦ absurd (ground (arith, code_slash (code c) e))
  | inr e ↦ rw e (no_slash s (ground arith))
]

underscores-plain : (s : String) → all_plain (underscores s) ≡ true
unfolding underscores all_plain is_plain
underscores-plain [] = refl
underscores-plain (c ∷ s) = elim (Bool-cases (is_plain (code c))) [
  | inl plain ↦ rw plain (rw plain (underscores-plain s))
  | inr other ↦ elim (Bool-cases (leb 65536 (code c))) [
    | inl two ↦ rw (other, two) (underscores-plain s)
    | inr one ↦ rw (other, one) (underscores-plain s)
  ]
]

-- The first of two texts that is not empty, where the second is a part.
or_other-IsPart :
    (a b : String)
    → all_plain a ≡ true
    → begins_not b'.' a ≡ true
    → IsPart b
    → IsPart (or_other a b)
unfolding or_other
or_other-IsPart a b p d h = elim (Bool-cases (is_empty a)) [
  | inl none_given ↦ rw none_given h
  | inr given ↦ rw given (record { nonempty = given; no_dot = d; no_slash = no_slash a p })
]

segment-IsPart : (s b : String) → IsPart b → IsPart (or_other (segment s) b)
unfolding segment
segment-IsPart s b h =
    or_other-IsPart (segment s) b (drop_leading-plain b'.' (underscores s) (underscores-plain s))
      (drop_leading-begins b'.' (underscores s)) h

IsPart-same : (s t : String) → IsPart t → (s == t) ≡ true → IsPart s
IsPart-same s t h e = rw ((eq_iff s t).0 e) h

-- A text that is among parts.
IsPart-any :
    (s : String) (ts : List String) → All IsPart ts → any (λ t. s == t) ts ≡ true → IsPart s
unfolding any
IsPart-any s List.[] h e = absurd (ground (arith, e))
IsPart-any s (List.◌∷◌ t ts) (h, hs) e = elim (Bool-cases (s == t)) [
  | inl same ↦ IsPart-same s t h same
  | inr other ↦ IsPart-any s ts hs (ground (arith, other, e))
]

part :
    (s : String) → is_empty s ≡ false → begins_not b'.' s ≡ true → holds slash s ≡ false → IsPart s
part s a b c = record { nonempty = a; no_dot = b; no_slash = c }

doc_types-IsPart : All IsPart doc_types
unfolding is_empty begins_not holds
doc_types-IsPart = (
  part "ecmr" refl refl refl,
  (
    part "pod" refl refl refl,
    (
      part "invoice" refl refl refl,
      (
        part "driver_license" refl refl refl,
        (
          part "cpc" refl refl refl,
          (
            part "medical" refl refl refl,
            (
              part "insurance" refl refl refl,
              (part "tacho_file" refl refl refl, (part "e_irsaliye" refl refl refl, tt)),
            ),
          ),
        ),
      ),
    ),
  ),
)

safe_type-IsPart : (v : Value) → IsPart (safe_type v)
unfolding safe_type is_doc_type is_empty begins_not holds
safe_type-IsPart (text s) = elim (Bool-cases (is_doc_type s)) [
  | inl known ↦ rw known (IsPart-any s doc_types doc_types-IsPart known)
  | inr other ↦ rw other (part "other" refl refl refl)
]
safe_type-IsPart _ = part "other" refl refl refl

-- Two parts with a dash between are a part.
dashed-IsPart : (a b : String) → IsPart a → IsPart b → IsPart (a ++ ("-" ∷ b))
unfolding is_empty begins_not holds
dashed-IsPart [] b h k = absurd (ground (arith, h.nonempty))
dashed-IsPart (c ∷ a) b h k = rw cons-append (
    part (c ∷ (a ++ ("-" ∷ b))) refl h.no_dot
      (ground (arith, h.no_slash, k.no_slash, holds-append slash a ("-" ∷ b))))

joined :
    (a t n : String)
    → holds slash a ≡ false
    → holds slash t ≡ false
    → holds slash n ≡ false
    → split slash (a ++ ("/" ∷ (t ++ ("/" ∷ n)))) ≡ (a, List.◌∷◌ t (List.◌∷◌ n List.[]))
joined a t n h k l =
    split-append slash "/" a (t ++ ("/" ∷ n)) refl h
    ∙ ap (λ (z : String × List String). (a, List.◌∷◌ z.0 z.1)) (split-append slash "/" t n refl k)
    ∙ ap (λ (z : String × List String). (a, List.◌∷◌ t (List.◌∷◌ z.0 z.1))) (split-none slash n l)

-- A key of the store is a path of three parts, and none of them is empty, begins with a dot or is
-- itself a path, whatever was sent: where the random identifier is such a part.
pub build_storage_key-parts :
    (r : Runtime) (base : String → String) (uuid : String) (trip_id doc_type id filename : Value)
    → IsPart uuid
    → (a t n : String) × (split slash (build_storage_key r base uuid trip_id doc_type id filename)
        ≡ (a, List.◌∷◌ t (List.◌∷◌ n List.[])))
      × IsPart a
      × IsPart t
      × IsPart n
unfolding build_storage_key is_empty begins_not holds
build_storage_key-parts r base uuid trip_id doc_type id filename u =
    let a = segment-IsPart (text_of r trip_id) "trip" (part "trip" refl refl refl) in
    let t = safe_type-IsPart doc_type in
    let (p, d, l) = sanitize_filename-safe base filename in
    let f =
      or_other-IsPart (sanitize_filename base filename) "upload" p d
        (part "upload" refl refl refl) in
    let n =
      dashed-IsPart (or_other (segment (text_of r id)) uuid)
        (or_other (sanitize_filename base filename) "upload") (segment-IsPart (text_of r id) uuid u)
        f in
    (
      or_other (segment (text_of r trip_id)) "trip",
      safe_type doc_type,
      or_other (segment (text_of r id)) uuid
          ++ ("-" ∷ or_other (sanitize_filename base filename) "upload"),
      joined (or_other (segment (text_of r trip_id)) "trip") (safe_type doc_type)
          (or_other (segment (text_of r id)) uuid
            ++ ("-" ∷ or_other (sanitize_filename base filename) "upload"))
          a.no_slash t.no_slash n.no_slash,
      a,
      t,
      n,
    )
