-- ===== src/Share/Plain.antt =====
-- A codec with the laws of a codec, which the examples run with: fields end with a comma, and the
-- characters that have a meaning are written in two. Its signature is a checksum.
use Prim.Native.Char.{Char, code}
use Prim.Native.String.{[], ◌∷◌}
use package.text.Mathlib.TextEquality.{Char-path}
use roadwisefleet.Prelude.{
  ℕ, zero, suc, List, ◌+◌, ◌*◌, String, ◌≡◌, refl, ap, ◌∙◌, Bool, true, false, Option, none, some,
  ◌==◌, eqb, arith, Bool-cases, inl, inr, if◌then◌else◌,
}
use roadwisefleet.Js.{text, undefined, Fields}
use roadwisefleet.Share.Cuts.{holds, is_empty}
use roadwisefleet.Share.Decimal.{print, parse_int, parse_int-print, holds-print}
use roadwisefleet.Share.Tokens.{Payload, fields_of, Codec, IsCodec, dot}

write : String → String → String
write [] rest = "," ∷ rest
write (c ∷ s) rest =
    let more = write s rest in
    if eqb (code c) b'.'
    then "%" ∷ ("d" ∷ more)
    else if eqb (code c) b'%'
    then "%" ∷ ("p" ∷ more)
    else if eqb (code c) b','
    then "%" ∷ ("c" ∷ more)
    else c ∷ more

push : Char → Option (String × String) → Option (String × String)
push c none = none
push c (some (s, rest)) = some (c ∷ s, rest)

letter : Char → Char
letter c = if eqb (code c) b'd' then "." else if eqb (code c) b'p' then "%" else ","

read : Bool → String → Option (String × String)
read escaped [] = none
read true (c ∷ s) = push (letter c) (read false s)
read false (c ∷ s) =
    let plain = push c (read false s) in
    let escape = read true s in
    if eqb (code c) b',' then some ([], s) else if eqb (code c) b'%' then escape else plain

char_is : (c d : Char) → eqb (code c) (code d) ≡ true → d ≡ c
char_is c d h = Char-path d c (ground arith)

read-write : (s rest : String) → read false (write s rest) ≡ some (s, rest)
unfolding read write push letter
read-write [] rest = refl
read-write (c ∷ s) rest = elim (Bool-cases (eqb (code c) b'.')) [
  | inl e ↦ rw e (rw (read-write s rest, push) (ap (λ z. some (z ∷ s, rest)) (char_is c "." e)))
  | inr a ↦ elim (Bool-cases (eqb (code c) b'%')) [
    | inl e ↦
        rw (a, e) (rw (read-write s rest, push) (ap (λ z. some (z ∷ s, rest)) (char_is c "%" e)))
    | inr b ↦ elim (Bool-cases (eqb (code c) b',')) [
      | inl e ↦
          rw (a, b, e)
            (rw (read-write s rest, push) (ap (λ z. some (z ∷ s, rest)) (char_is c "," e)))
      | inr d ↦ rw (a, b, d) (rw (b, d) (rw (read-write s rest, push) refl))
    ]
  ]
]

holds-write : (s rest : String) → holds dot (write s rest) ≡ holds dot rest
unfolding holds write
holds-write [] rest = refl
holds-write (c ∷ s) rest = ground (arith, holds-write s rest)

opt : Option String → String
opt none = "n"
opt (some s) = "s" ∷ s

unopt : String → Option String
unopt [] = none
unopt (c ∷ s) = if eqb (code c) b's' then some s else none

unopt-opt : (o : Option String) → unopt (opt o) ≡ o
unfolding opt unopt
unopt-opt none = refl
unopt-opt (some s) = refl

number_in : String → ℕ
number_in s = elim (parse_int s) [ none ↦ 0 | some n ↦ n ]

number_in-print : (n : ℕ) → number_in (print n) ≡ n
unfolding number_in
number_in-print n = ground (arith, parse_int-print n)

encode : Payload → String
encode p =
    "p"
    ∷ write p.claims.sub (
        write (opt p.claims.org) (
          write (opt p.claims.role)
            (write (opt p.claims.name) (write (print p.iat) (write (print p.exp) [])))))

-- The fields that a text begins with.
fields : ℕ → String → List String
fields zero s = List.[]
fields (suc n) s = elim (read false s) [
  | none ↦ List.[]
  | some (a, rest) ↦ List.◌∷◌ a (fields n rest)
]

payload_in : List String → Option Fields
payload_in
      (List.◌∷◌ sub
        (List.◌∷◌ org (List.◌∷◌ role (List.◌∷◌ name (List.◌∷◌ iat (List.◌∷◌ exp List.[])))))) =
    some (
      fields_of (record {
        claims = record { sub = sub; org = unopt org; role = unopt role; name = unopt name };
        iat = number_in iat;
        exp = number_in exp;
      }))
payload_in _ = none

header_fields : Fields
header_fields key = if key == "alg" then text "HS256" else undefined

decode : String → Option Fields
decode [] = none
decode (c ∷ s) = if eqb (code c) b'h' then some header_fields else payload_in (fields 6 s)

fields-write :
    (n : ℕ) (s rest : String) → fields (suc n) (write s rest) ≡ List.◌∷◌ s (fields n rest)
unfolding fields
fields-write n s rest = ground (arith, read-write s rest)

decode-encode : (p : Payload) → decode (encode p) ≡ some (fields_of p)
unfolding decode encode payload_in fields
decode-encode p =
    let iat = print p.iat in
    let exp = print p.exp in
    let rest4 = write iat (write exp []) in
    let rest3 = write (opt p.claims.name) rest4 in
    let rest2 = write (opt p.claims.role) rest3 in
    let rest1 = write (opt p.claims.org) rest2 in
    ap payload_in (
      fields-write 5 p.claims.sub rest1
      ∙ ap (λ z. List.◌∷◌ p.claims.sub z)
          (fields-write 4 (opt p.claims.org) rest2
            ∙ ap (λ z. List.◌∷◌ (opt p.claims.org) z)
                (fields-write 3 (opt p.claims.role) rest3
                  ∙ ap (λ z. List.◌∷◌ (opt p.claims.role) z)
                      (fields-write 2 (opt p.claims.name) rest4
                        ∙ ap (λ z. List.◌∷◌ (opt p.claims.name) z)
                            (fields-write 1 iat (write exp [])
                              ∙ ap (λ z. List.◌∷◌ iat z) (fields-write 0 exp []))))))
    ∙ same (unopt-opt p.claims.org) (unopt-opt p.claims.role) (unopt-opt p.claims.name)
        (number_in-print p.iat) (number_in-print p.exp)
  where
    same :
        {o r n : Option String} {i e : ℕ}
        → o ≡ p.claims.org
        → r ≡ p.claims.role
        → n ≡ p.claims.name
        → i ≡ p.iat
        → e ≡ p.exp
        → some (
            fields_of (record {
              claims = record { sub = p.claims.sub; org = o; role = r; name = n };
              iat = i;
              exp = e;
            }))
          ≡ some (fields_of p)
    same a b c d e = λ j. some (
        fields_of (record {
          claims = record { sub = p.claims.sub; org = a j; role = b j; name = c j };
          iat = d j;
          exp = e j;
        }))

checksum : String → ℕ
checksum [] = 1
checksum (c ∷ s) = code c + 31 * checksum s

sign : String → String → String
sign body secret = "s" ∷ print (checksum body + 7 * checksum secret)

unfoldable pub plain : Codec
unfolding decode encode sign write opt checksum header_fields payload_in fields unopt number_in read
    push letter
plain = record { header = "h"; encode = encode; sign = sign; decode = decode }

pub plain-IsCodec : IsCodec plain
unfolding plain decode sign encode holds is_empty header_fields
plain-IsCodec = record {
  head = header_fields;
  decode-header = refl;
  head_alg = refl;
  decode-encode = decode-encode;
  header_plain = refl;
  encode_plain = λ p. simp holds-write;
  sign_plain = λ body secret. holds-print dot (checksum body + 7 * checksum secret) refl;
  sign_nonempty = λ body secret. refl;
}
