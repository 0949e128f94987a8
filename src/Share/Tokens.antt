-- ===== src/Share/Tokens.antt =====
-- `signToken` and `verifyToken` of apps/api/src/auth/tokens.js. The encodings and the signature
-- are built-in modules of the platform, and a parameter here.
use Prim.Native.String.{◌∷◌, ◌++◌}
use roadwisefleet.Prelude.{
  ℕ, ◌+◌, ◌*◌, String, ◌≡◌, Bool, true, false, not, Option, none, some, List, ◌==◌, leb,
  if◌then◌else◌,
}
use roadwisefleet.Js.{
  Number, nan, infinite, neg_infinite, plus, minus, Value, undefined, null, text, number, Fields,
  million,
}
use roadwisefleet.Share.Cuts.{is_empty, holds, split}

-- `claims`
pub record Claims : Type 0 where
  pub sub : String
  pub org : Option String
  pub role : Option String
  pub name : Option String

-- The payload; the instants are in seconds.
pub record Payload : Type 0 where
  pub claims : Claims
  pub iat : ℕ
  pub exp : ℕ

abbrev pub or_null : Option String → Value
or_null none = null
or_null (some s) = text s

-- The payload as an object.
abbrev pub fields_of : Payload → Fields
fields_of p key =
    if key == "sub"
    then text p.claims.sub
    else if key == "org"
    then or_null p.claims.org
    else if key == "role"
    then or_null p.claims.role
    else if key == "name"
    then or_null p.claims.name
    else if key == "iat"
    then number (plus (p.iat * million))
    else if key == "exp"
    then number (plus (p.exp * million))
    else undefined

-- What the platform gives: `b64urlJson(HEADER)`, `b64urlJson(payload)`, `sign(data, secret)`, and
-- the object that a part decodes to, `none` where decoding throws or gives a falsy value.
pub record Codec : Type 0 where
  pub header : String
  pub encode : Payload → String
  pub sign : String → String → String
  pub decode : String → Option Fields

abbrev pub dot : ℕ
dot = b'.'

-- Decoding undoes encoding, and base64url has no dot. A digest is not empty.
pub record IsCodec (k : Codec) : Type 0 where
  pub head : Fields
  pub decode-header : k.decode k.header ≡ some head
  pub head_alg : head "alg" ≡ text "HS256"
  pub decode-encode : (p : Payload) → k.decode (k.encode p) ≡ some (fields_of p)
  pub header_plain : holds dot k.header ≡ false
  pub encode_plain : (p : Payload) → holds dot (k.encode p) ≡ false
  pub sign_plain : (body secret : String) → holds dot (k.sign body secret) ≡ false
  pub sign_nonempty : (body secret : String) → is_empty (k.sign body secret) ≡ false

-- `payload.exp <= now`
abbrev pub lapsed : Number → ℕ → Bool
lapsed (plus n) now = leb n (now * million)
lapsed (minus n) now = true
lapsed neg_infinite now = true
lapsed infinite now = false
lapsed nan now = false

abbrev pub is_text : String → Value → Bool
is_text s (text t) = t == s
is_text s _ = false

module _ (k : Codec) where
  -- The body of the token, and the token.
  unfoldable pub body_of : Payload → String
  body_of p = k.header ++ ("." ∷ k.encode p)

  unfoldable pub issue : Payload → String → String
  issue p secret = body_of p ++ ("." ∷ k.sign (body_of p) secret)

  -- `signToken(claims, secret, { ttlSeconds, now })`; `none` where it throws
  unfoldable pub sign_token : Claims → String → ℕ → ℕ → Option String
  sign_token claims secret ttl now =
      if is_empty claims.sub
      then none
      else if is_empty secret
      then none
      else some (issue (record { claims = claims; iat = now; exp = now + ttl }) secret)

  -- The checks of `verifyToken` on what the parts decode to.
  unfoldable pub check_payload : Fields → ℕ → Option Fields
  check_payload payload now = elim (payload "sub") [
    | text sub ↦ elim (payload "exp") [
      | number exp ↦ if lapsed exp now then none else some payload
      | _ ↦ none
    ]
    | _ ↦ none
  ]

  -- The parts of a token with the right signature.
  unfoldable pub open_parts : String → String → ℕ → Option Fields
  open_parts header_part payload_part now = elim (k.decode header_part) [
    | none ↦ none
    | some head ↦ elim (k.decode payload_part) [
      | none ↦ none
      | some payload ↦
          if not (is_text "HS256" (head "alg")) then none else check_payload payload now
    ]
  ]

  -- The parts of a token.
  unfoldable pub verify_parts : String × List String → String → ℕ → Option Fields
  verify_parts (header_part, List.◌∷◌ payload_part (List.◌∷◌ signature List.[])) secret now =
      if not (signature == k.sign (header_part ++ ("." ∷ payload_part)) secret)
      then none
      else open_parts header_part payload_part now
  verify_parts _ secret now = none

  -- `verifyToken(token, secret, { now })`
  unfoldable pub verify_token : Value → String → ℕ → Option Fields
  verify_token (text token) secret now =
      if is_empty secret then none else verify_parts (split dot token) secret now
  verify_token _ secret now = none
