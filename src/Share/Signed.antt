-- ===== src/Share/Signed.antt =====
-- A token that was signed is verified until it expires (apps/api/src/auth/tokens.js).
use Prim.Native.String.{◌∷◌, ◌++◌}
use package.text.Mathlib.TextLemmas.{append_assoc, cons-append}
use roadwisefleet.Prelude.{
  ℕ, ◌+◌, ◌*◌, ◌≤◌, ◌<◌, String, ◌≡◌, refl, ap, ◌∙◌, true, false, none, some, List, arith, eq_refl,
  if◌then◌else◌,
}
use roadwisefleet.Js.{text, plus, million}
use roadwisefleet.Share.Cuts.{is_empty, split, split-append, split-none}
use roadwisefleet.Share.Tokens.{
  Claims, Payload, fields_of, Codec, IsCodec, dot, lapsed, body_of, issue, sign_token,
  check_payload, open_parts, verify_parts, verify_token,
}

module _ (k : Codec) (law : IsCodec k) where
  -- The parts of a token.
  split-issue :
      (p : Payload) (secret : String)
      → split dot (issue k p secret)
        ≡ (k.header, List.◌∷◌ (k.encode p) (List.◌∷◌ (k.sign (body_of k p) secret) List.[]))
  unfolding issue body_of
  split-issue p secret =
      let sig = k.sign (body_of k p) secret in
      ap (split dot) (append_assoc k.header ("." ∷ k.encode p) ("." ∷ sig))
      ∙ ap (λ z. split dot (k.header ++ z)) (cons-append "." (k.encode p) ("." ∷ sig))
      ∙ split-append dot "." k.header (k.encode p ++ ("." ∷ sig)) refl law.header_plain
      ∙ ap (λ (z : String × List String). (k.header, List.◌∷◌ z.0 z.1))
          (split-append dot "." (k.encode p) sig refl (law.encode_plain p))
      ∙ ap (λ (z : String × List String). (k.header, List.◌∷◌ (k.encode p) (List.◌∷◌ z.0 z.1)))
          (split-none dot sig (law.sign_plain (body_of k p) secret))

  lapsed_not : (e now : ℕ) → now < e → lapsed (plus (e * million)) now ≡ false
  lapsed_not e now h = ground arith

  open_parts-issue :
      (p : Payload) (now : ℕ)
      → now < p.exp
      → open_parts k k.header (k.encode p) now ≡ some (fields_of p)
  unfolding open_parts check_payload
  open_parts-issue p now h =
      ground (arith, law.decode-header, law.decode-encode p, law.head_alg, lapsed_not p.exp now h)

  verify_token-issue :
      (p : Payload) (secret : String) (now : ℕ)
      → is_empty secret ≡ false
      → now < p.exp
      → verify_token k (text (issue k p secret)) secret now ≡ some (fields_of p)
  unfolding verify_token verify_parts body_of
  verify_token-issue p secret now e h = rw e (
      ap (λ z. verify_parts k z secret now) (split-issue p secret)
      ∙ ground (arith, eq_refl (k.sign (body_of k p) secret), open_parts-issue p now h))

  lapsed_late : (e now : ℕ) → e ≤ now → lapsed (plus (e * million)) now ≡ true
  lapsed_late e now h = ground arith

  -- From the end of its term on, a token is refused.
  pub verify_token-late :
      (p : Payload) (secret : String) (now : ℕ)
      → p.exp ≤ now
      → verify_token k (text (issue k p secret)) secret now ≡ none
  unfolding verify_token verify_parts open_parts check_payload
  verify_token-late p secret now h =
      ap (λ z. if is_empty secret then none else verify_parts k z secret now) (split-issue p secret)
      ∙ ground (arith, law.decode-header, law.decode-encode p, lapsed_late p.exp now h)

  -- A token that is signed for a subject, with a secret, is verified with that secret at any time
  -- before the end of its term, and gives back its claims and instants. It is signed, where neither
  -- the subject nor the secret is empty.
  pub verify_token-sign :
      (claims : Claims) (secret : String) (ttl issued now : ℕ)
      → is_empty claims.sub ≡ false
      → is_empty secret ≡ false
      → now < issued + ttl
      → (token : String) × (sign_token k claims secret ttl issued ≡ some token)
        × (verify_token k (text token) secret now
            ≡ some (fields_of (record { claims = claims; iat = issued; exp = issued + ttl })))
  unfolding sign_token
  verify_token-sign claims secret ttl issued now s e h =
      let p : Payload = record { claims = claims; iat = issued; exp = issued + ttl } in
      (issue k p secret, ground (arith, s, e), verify_token-issue p secret now e h)
