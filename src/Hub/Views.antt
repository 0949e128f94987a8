-- ===== src/Hub/Views.antt =====
-- What the operations of the hub do to what it sees (apps/api/src/gps-stream.js).
use mathlib.Core.Path.{subst}
use roadwisefleet.Prelude.{
  ℕ, String, ◌≡◌, refl, ap, ◌∙◌, Bool, true, false, not, ◌&&◌, ◌||◌, none, some, List, [], ◌∷◌,
  ◌++◌, ◌==◌, eq_iff, eqb, filter, any, arith, Bool-cases, Option-cases, inl, inr, if◌then◌else◌,
}
use roadwisefleet.Hub.Listeners.{
  Entry, get, put, drop_key, has, add, remove, Handle, set_of, subscribe, put_back, unsubscribe,
}

-- Whether a listener is subscribed to a trip.
unfoldable pub sees : List Entry → String → ℕ → Bool
sees es t l = has l (set_of t es)

pub get-put :
    (t u : String) (s : List ℕ) (es : List Entry)
    → get u (put t s es) ≡ (if t == u then some s else get u es)
unfolding get put
get-put t u s [] = refl
get-put t u s (e ∷ es) =
    ground (arith, eq_iff e.trip_id t, eq_iff e.trip_id u, eq_iff t u, get-put t u s es)

pub get-drop :
    (t u : String) (es : List Entry) → get u (drop_key t es) ≡ (if t == u then none else get u es)
unfolding get drop_key filter
get-drop t u [] = ground arith
get-drop t u (e ∷ es) =
    ground (arith, eq_iff e.trip_id t, eq_iff e.trip_id u, eq_iff t u, get-drop t u es)

has-append : (k l : ℕ) (s : List ℕ) → has k (s ++ l ∷ []) ≡ (has k s || eqb l k)
unfolding has any
has-append k l [] = ground arith
has-append k l (x ∷ s) = ground (arith, has-append k l s)

pub has_same : (k l : ℕ) (s : List ℕ) → eqb l k ≡ true → has k s ≡ has l s
has_same k l s e = let same : k ≡ l = ground arith in ap (λ z. has z s) same

has-add : (k l : ℕ) (s : List ℕ) → has k (add l s) ≡ (has k s || eqb l k)
unfolding add
has-add k l s = ground (arith, has-append k l s, has_same k l s)

has-remove : (k l : ℕ) (s : List ℕ) → has k (remove l s) ≡ (has k s && not (eqb l k))
unfolding has any remove filter
has-remove k l [] = refl
has-remove k l (x ∷ s) = ground (arith, has-remove k l s)

pub sees-subscribe :
    (t u : String) (l k : ℕ) (es : List Entry)
    → sees (subscribe t l es).1 u k ≡ (sees es u k || (t == u && eqb l k))
unfolding sees subscribe
sees-subscribe t u l k es =
    ground (arith, get-put t u (add l (set_of t es)) es, eq_iff t u, has-add k l (set_of t es))

sees-put_back :
    (t u : String) (s : List ℕ) (k : ℕ) (es : List Entry)
    → sees (put_back t s es) u k ≡ (if t == u then has k s else sees es u k)
unfolding sees put_back has any
sees-put_back t u [] k es = ground (arith, get-drop t u es)
sees-put_back t u (x ∷ s) k es = ground (arith, get-put t u (x ∷ s) es)

sees-none :
    (t u : String) (k : ℕ) (es : List Entry)
    → get t es ≡ none
    → (t == u) ≡ true
    → sees es u k ≡ false
unfolding sees has any
sees-none t u k es e same =
    let here : get u es ≡ none = subst (λ z. get z es ≡ none) ((eq_iff t u).0 same) e in
    ground (arith, here)

sees-some :
    (t u : String) (k : ℕ) (es : List Entry) (s : List ℕ)
    → get t es ≡ some s
    → (t == u) ≡ true
    → sees es u k ≡ has k s
unfolding sees
sees-some t u k es s e same =
    let here : get u es ≡ some s = subst (λ z. get z es ≡ some s) ((eq_iff t u).0 same) e in
    ground (arith, here)

pub sees-unsubscribe :
    (h : Handle) (u : String) (k : ℕ) (es : List Entry)
    → sees (unsubscribe h es).1 u k
      ≡ (sees es u k && not (h.active && h.trip_id == u && eqb h.listener k))
unfolding unsubscribe
sees-unsubscribe h u k es = elim (Bool-cases h.active) [
  | inr off ↦ rw off (ground arith)
  | inl on ↦ elim (Option-cases (get h.trip_id es)) [
    | inl nobody ↦ rw (on, nobody) (ground (arith, sees-none h.trip_id u k es nobody))
    | inr (s, found) ↦
        rw (on, found)
          (sees-put_back h.trip_id u (remove h.listener s) k es
            ∙ ground (arith, sees-some h.trip_id u k es s found, has-remove k h.listener s))
  ]
]
