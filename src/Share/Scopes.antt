-- ===== src/Share/Scopes.antt =====
-- What surface a link opens (apps/api/src/track-link.js).
use roadwisefleet.Prelude.{
  ℕ, String, ◌≡◌, sym, ap, ◌∙◌, true, Option, none, some, ◌==◌, arith, eq_iff,
}
use roadwisefleet.Js.{Value, text}
use roadwisefleet.Share.Subjects.{decode_share_sub}
use roadwisefleet.Share.Tokens.{Codec}
use roadwisefleet.Share.Links.{
  Keys, Opened, SharedLink, link_payload, verify_track_link, verify_share_link,
}

module _ (k : Codec) where
  -- A token that opens as a tracking link opens no document, for any scope.
  pub track_link_opens_no_share :
      (token : Value) (keys : Keys) (now : ℕ) (o : Opened) (scope : String)
      → verify_track_link k token keys now ≡ some o
      → verify_share_link k token scope keys now ≡ none
  unfolding verify_track_link verify_share_link decode_share_sub
  track_link_opens_no_share token keys now o scope e = ground arith

  -- What a token opens, whatever its scope.
  abbrev any_scope : Value → Keys → ℕ → Option SharedLink
  any_scope token keys now = elim (link_payload k token keys now) [
    | none ↦ none
    | some (payload, sub) ↦ elim (decode_share_sub (text sub)) [
      | none ↦ none
      | some s ↦ some (record { shared = s; iat = payload "iat"; exp = payload "exp" })
    ]
  ]

  opened_scope :
      (token : Value) (keys : Keys) (now : ℕ) (a : String) (s : SharedLink)
      → verify_share_link k token a keys now ≡ some s
      → ((s.shared.scope == a) ≡ true) × (any_scope token keys now ≡ some s)
  unfolding verify_share_link
  opened_scope token keys now a s e = ground arith

  -- A token opens documents in one scope at most, and one document at most.
  pub share_link_scope :
      (token : Value) (keys : Keys) (now : ℕ) (a b : String) (s t : SharedLink)
      → verify_share_link k token a keys now ≡ some s
      → verify_share_link k token b keys now ≡ some t
      → (a ≡ b) × (s ≡ t)
  share_link_scope token keys now a b s t e f =
      let (sa, es) = opened_scope token keys now a s e in
      let (tb, et) = opened_scope token keys now b t f in
      let st : s ≡ t = ground (arith, sym es ∙ et) in
      (
        sym ((eq_iff s.shared.scope a).0 sa)
            ∙ ap (λ (z : SharedLink). z.shared.scope) st
            ∙ (eq_iff t.shared.scope b).0 tb,
        st,
      )
