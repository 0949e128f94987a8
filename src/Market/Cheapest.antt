-- ===== src/Market/Cheapest.antt =====
-- Automatic matching takes the cheapest eligible offer (apps/api/src/marketplace.js).
use mathlib.Core.List.{Memᴰ}
use mathlib.Core.Path.{subst}
use roadwisefleet.Prelude.{
  ℕ, ◌≡◌, refl, sym, Bool, true, false, Option, none, some, List, [], ◌∷◌, filter, if◌then◌else◌,
  any, All, arith, Bool-cases, inl, inr, ◌⊎◌, ◌≢◌,
}
use roadwisefleet.Market.States.{Offer}
use roadwisefleet.Market.AutoMatch.{
  Rules, no_dearer, insert, sort_by_price, eligible, auto_match_winner,
}

no_dearer_trans :
    (a b c : Option ℕ) → no_dearer a b ≡ true → no_dearer b c ≡ true → no_dearer a c ≡ true
unfolding no_dearer
no_dearer_trans a b c h k = ground arith

no_dearer_total : (a b : Option ℕ) → no_dearer a b ≡ false → no_dearer b a ≡ true
unfolding no_dearer
no_dearer_total a b h = ground arith

list_cases : (os : List Offer) → (os ≡ []) ⊎ ((o : Offer) × (ps : List Offer) × (os ≡ o ∷ ps))
list_cases [] = inl refl
list_cases (o ∷ ps) = inr (o, ps, refl)

no_dearer_refl : (a : Option ℕ) → no_dearer a a ≡ true
unfolding no_dearer
no_dearer_refl a = ground arith

NoDearer : Offer → Offer → Type 0
NoDearer w p = no_dearer w.price_eur p.price_eur ≡ true

insert_some : (o : Offer) (os : List Offer) → insert o os ≢ []
unfolding insert
insert_some o [] e = absurd (ground arith)
insert_some o (p ∷ ps) e = absurd (ground arith)

sort_none : (os : List Offer) → sort_by_price os ≡ [] → os ≡ []
unfolding sort_by_price
sort_none [] e = refl
sort_none (o ∷ os) e = absurd (insert_some o (sort_by_price os) e)

dearer_All :
    (w y : Offer) (os : List Offer) → NoDearer w y → All (NoDearer y) os → All (NoDearer w) os
unfolding NoDearer
dearer_All w y [] h ps = tt
dearer_All w y (o ∷ os) h (p, ps) =
    (no_dearer_trans w.price_eur y.price_eur o.price_eur h p, dearer_All w y os h ps)

sorted_head :
    (os : List Offer) (w : Offer) (rest : List Offer)
    → sort_by_price os ≡ w ∷ rest
    → Memᴰ w os × All (NoDearer w) os
unfolding sort_by_price insert NoDearer
sorted_head [] w rest h = absurd (ground arith)
sorted_head (o ∷ os) w rest h = elim (list_cases (sort_by_price os)) [
  | inl none_left ↦
      let nil : os ≡ [] = sort_none os none_left in
      let e : o ≡ w = ground (arith, h, none_left) in
      (
        Memᴰ.head (sym e),
        subst (λ z. All (NoDearer w) (z ∷ os)) (sym e)
            (no_dearer_refl w.price_eur, subst (All (NoDearer w)) (sym nil) tt),
      )
  | inr (y, ys, sorted) ↦
      let (m, ps) = sorted_head os y ys sorted in
      elim (Bool-cases (no_dearer o.price_eur y.price_eur)) [
        | inl first ↦
            (let e : o ≡ w = ground (arith, h, sorted, first) in
              (
                Memᴰ.head (sym e),
                subst (λ z. All (NoDearer z) (o ∷ os)) e
                    (no_dearer_refl o.price_eur, dearer_All o y os first ps),
              ))
        | inr later ↦
            (let e : y ≡ w = ground (arith, h, sorted, later) in
              (
                Memᴰ.tail (subst (λ z. Memᴰ z os) e m),
                subst (λ z. All (NoDearer z) (o ∷ os)) e
                    (no_dearer_total o.price_eur y.price_eur later, ps),
              ))
      ]
]

filtered_Mem :
    (r : Rules) (os : List Offer) (w : Offer)
    → Memᴰ w (filter (eligible r) os)
    → Memᴰ w os × (eligible r w ≡ true)
unfolding filter
filtered_Mem r [] w m = elim m [ ]
filtered_Mem r (o ∷ os) w m = go (eligible r o) refl (filtered_Mem r os w) m
  where
    go :
        (b : Bool)
        → eligible r o ≡ b
        → (Memᴰ w (filter (eligible r) os) → Memᴰ w os × (eligible r w ≡ true))
        → Memᴰ w (if b then o ∷ filter (eligible r) os else filter (eligible r) os)
        → Memᴰ w (o ∷ os) × (eligible r w ≡ true)
    go true e rec (Memᴰ.head q) = (Memᴰ.head q, subst (λ z. eligible r z ≡ true) (sym q) e)
    go true e rec (Memᴰ.tail k) = let (a, b) = rec k in (Memᴰ.tail a, b)
    go false e rec k = let (a, b) = rec k in (Memᴰ.tail a, b)

-- Automatic matching answers with an open offer of the list that the rules accept, and every such
-- offer of the list is at least as dear (one without a price counts as the dearest).
pub auto_match_winner-cheapest :
    (r : Rules) (os : List Offer) (w : Offer)
    → auto_match_winner r os ≡ some w
    → (Memᴰ w os × (eligible r w ≡ true))
      × All (λ (p : Offer). no_dearer w.price_eur p.price_eur ≡ true) (filter (eligible r) os)
unfolding auto_match_winner NoDearer
auto_match_winner-cheapest r os w h = elim (list_cases (sort_by_price (filter (eligible r) os))) [
  | inl no_offer ↦ absurd (ground (arith, no_offer))
  | inr (y, ys, sorted) ↦
      let e : y ≡ w = ground (arith, h, sorted) in
      let (m, ps) =
        sorted_head (filter (eligible r) os) w ys
          (subst (λ z. sort_by_price (filter (eligible r) os) ≡ z ∷ ys) e sorted) in
      (filtered_Mem r os w m, ps)
]

filtered_none :
    (r : Rules) (os : List Offer) → filter (eligible r) os ≡ [] → any (eligible r) os ≡ false
unfolding filter any
filtered_none r [] h = refl
filtered_none r (o ∷ os) h = ground (arith, filtered_none r os)

-- With the rules switched on, it answers nothing only where the list has no open offer that they
-- accept.
pub auto_match_winner-none :
    (r : Rules) (os : List Offer)
    → r.enabled ≡ true
    → auto_match_winner r os ≡ none
    → any (eligible r) os ≡ false
unfolding auto_match_winner
auto_match_winner-none r os on h = elim (list_cases (sort_by_price (filter (eligible r) os))) [
  | inl no_offer ↦ filtered_none r os (sort_none (filter (eligible r) os) no_offer)
  | inr (y, ys, sorted) ↦ absurd (ground (arith, sorted, h, on))
]
