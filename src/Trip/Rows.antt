-- ===== src/Trip/Rows.antt =====
-- Lemmas on the rows of the trip table: unique keys, and what an update by key does.
use mathlib.Core.List.{Memᴰ}
use mathlib.Core.Path.{subst}
use roadwisefleet.Prelude.{
  ℕ, ◌+◌, ◌≤◌, String, ◌≡◌, ◌≢◌, refl, sym, ap, ◌∙◌, Bool, true, false, not, ◌&&◌, ◌||◌, List, [],
  ◌∷◌, ◌++◌, map, ◌==◌, eq_iff, eq_refl, any, All, arith,
}
use roadwisefleet.Trip.Tables.{Trip, TripUpdate}
use roadwisefleet.Trip.Client.{updated, update_row, has_id}

abbrev pub Unique : List Trip → Type 0
Unique [] = Unit
Unique (t ∷ ts) = (any (has_id t.id) ts ≡ false) × Unique ts

abbrev pub bit : Bool → ℕ
bit true = 1
bit false = 0

module _ {ℓ} {A : Type ℓ} where
  unfoldable pub count : (A → Bool) → List A → ℕ
  count p [] = 0
  count p (x ∷ xs) = bit (p x) + count p xs

  pub count-any : (p : A → Bool) (xs : List A) → any p xs ≡ false → count p xs ≡ 0
  unfolding count any
  count-any p [] h = refl
  count-any p (x ∷ xs) h = ground (arith, count-any p xs)

  pub count_mono :
      (p q : A → Bool) (xs : List A) → ((x : A) → p x ≡ true → q x ≡ true) → count p xs ≤ count q xs
  unfolding count
  count_mono p q [] h = omega arith
  count_mono p q (x ∷ xs) h = ground (arith, h x, count_mono p q xs h)

  pub any_mono :
      (p q : A → Bool) (xs : List A)
      → ((x : A) → p x ≡ true → q x ≡ true)
      → any q xs ≡ false
      → any p xs ≡ false
  unfolding any
  any_mono p q [] h n = refl
  any_mono p q (x ∷ xs) h n = ground (arith, h x, any_mono p q xs h)

  pub count-append : (p : A → Bool) (xs ys : List A) → count p (xs ++ ys) ≡ count p xs + count p ys
  unfolding count
  count-append p [] ys = omega arith
  count-append p (x ∷ xs) ys = omega (arith, count-append p xs ys)

  pub any-append : (p : A → Bool) (xs ys : List A) → any p (xs ++ ys) ≡ (any p xs || any p ys)
  unfolding any
  any-append p [] ys = refl
  any-append p (x ∷ xs) ys = ground (arith, any-append p xs ys)

  pub any_of_Mem : (p : A → Bool) {x : A} (xs : List A) → Memᴰ x xs → p x ≡ true → any p xs ≡ true
  unfolding any
  any_of_Mem p [] m h = elim m [ ]
  any_of_Mem p (y ∷ xs) (Memᴰ.head e) h = ground arith
  any_of_Mem p (y ∷ xs) (Memᴰ.tail m) h = ground (arith, any_of_Mem p xs m h)

  pub none_of_Mem :
      (p : A → Bool) {x : A} (xs : List A) → Memᴰ x xs → any p xs ≡ false → p x ≡ false
  none_of_Mem p {x} xs m h = ground (arith, any_of_Mem p xs m)

  pub count_of_Mem : (p : A → Bool) {x : A} (xs : List A) → Memᴰ x xs → p x ≡ true → 1 ≤ count p xs
  unfolding count
  count_of_Mem p [] m h = elim m [ ]
  count_of_Mem p {x} (y ∷ xs) (Memᴰ.head e) h =
      subst (λ z. 1 ≤ bit (p z) + count p xs) e (rw h (omega arith))
  count_of_Mem p (y ∷ xs) (Memᴰ.tail m) h = omega (arith, count_of_Mem p xs m h)

  pub All-append {κ} : (P : A → Type κ) (xs ys : List A) → All P xs → All P ys → All P (xs ++ ys)
  All-append P [] ys h k = k
  All-append P (x ∷ xs) ys h k = (h.0, All-append P xs ys h.1 k)

  pub All_of_Mem {κ} : (P : A → Type κ) {x : A} (xs : List A) → Memᴰ x xs → All P xs → P x
  All_of_Mem P [] m h = elim m [ ]
  All_of_Mem P (y ∷ xs) (Memᴰ.head e) h = subst P (sym e) h.0
  All_of_Mem P (y ∷ xs) (Memᴰ.tail m) h = All_of_Mem P xs m h.1

  pub All-map {κ μ} :
      (P : A → Type κ) (Q : A → Type μ) (xs : List A) → ((x : A) → P x → Q x) → All P xs → All Q xs
  All-map P Q [] f h = tt
  All-map P Q (x ∷ xs) f h = (f x h.0, All-map P Q xs f h.1)

-- An update keeps the key.
pub id-updated : (u : TripUpdate) (t : Trip) → (updated u t).id ≡ t.id
unfolding updated
id-updated u t = refl

any-update :
    (k id : String) (u : TripUpdate) (ts : List Trip)
    → any (has_id k) (map (update_row id u) ts) ≡ any (has_id k) ts
unfolding any updated
any-update k id u [] = refl
any-update k id u (t ∷ ts) = ground (arith, any-update k id u ts)

-- An update by key keeps the keys unique.
pub Unique-update :
    (id : String) (u : TripUpdate) (ts : List Trip) → Unique ts → Unique (map (update_row id u) ts)
unfolding updated
Unique-update id u [] h = tt
Unique-update id u (t ∷ ts) h =
    (ground (arith, any-update t.id id u ts, h.0), Unique-update id u ts h.1)

update_row_other : (id : String) (u : TripUpdate) (t : Trip) → t.id ≢ id → update_row id u t ≡ t
update_row_other id u t h = ground (arith, eq_iff t.id id)

-- An update by another key leaves a row where it is.
pub Mem-update :
    (id : String) (u : TripUpdate) (t : Trip) (ts : List Trip)
    → t.id ≢ id
    → Memᴰ t ts
    → Memᴰ t (map (update_row id u) ts)
Mem-update id u t [] h m = elim m [ ]
Mem-update id u t (x ∷ ts) h (Memᴰ.head e) =
    Memᴰ.head (sym (update_row_other id u t h) ∙ ap (update_row id u) e)
Mem-update id u t (x ∷ ts) h (Memᴰ.tail m) = Memᴰ.tail (Mem-update id u t ts h m)

-- The row with the key is updated.
pub Mem-update_self :
    (u : TripUpdate) (t : Trip) (ts : List Trip)
    → Memᴰ t ts
    → Memᴰ (updated u t) (map (update_row t.id u) ts)
Mem-update_self u t [] m = elim m [ ]
Mem-update_self u t (x ∷ ts) (Memᴰ.head e) =
    Memᴰ.head (ground (arith, eq_iff t.id t.id) ∙ ap (update_row t.id u) e)
Mem-update_self u t (x ∷ ts) (Memᴰ.tail m) = Memᴰ.tail (Mem-update_self u t ts m)

-- What is to hold of every row after an update of the row `cur`.
module _ {κ μ} (P : Trip → Type κ) (Q : Trip → Type μ) (cur : Trip) (u : TripUpdate) where
  All-update_absent :
      ((t : Trip) → P t → (t.id == cur.id) ≡ false → Q t)
      → (ts : List Trip) → any (has_id cur.id) ts ≡ false
      → All P ts
      → All Q (map (update_row cur.id u) ts)
  unfolding any
  All-update_absent keep [] a h = tt
  All-update_absent keep (t ∷ ts) a h =
      let e : (t.id == cur.id) ≡ false = ground arith in
      (rw e (keep t h.0 e), All-update_absent keep ts (ground arith) h.1)

  pub All-update :
      ((t : Trip) → P t → (t.id == cur.id) ≡ false → Q t)
      → (P cur → Q (updated u cur))
      → (ts : List Trip) → Unique ts
      → Memᴰ cur ts
      → All P ts
      → All Q (map (update_row cur.id u) ts)
  All-update keep change [] n m h = elim m [ ]
  All-update keep change (t ∷ ts) n (Memᴰ.head e) h = (
    subst (λ x. Q (update_row cur.id u x)) e (rw (eq_refl cur.id) (change (subst P (sym e) h.0))),
    All-update_absent keep ts (subst (λ x. any (has_id x.id) ts ≡ false) (sym e) n.0) h.1,
  )
  All-update keep change (t ∷ ts) n (Memᴰ.tail m) h =
      let e : (t.id == cur.id) ≡ false =
        ground
          (arith, none_of_Mem (has_id t.id) ts m n.0, eq_iff t.id cur.id, eq_iff cur.id t.id) in
      (rw e (keep t h.0 e), All-update keep change ts n.1 m h.1)

-- How many rows satisfy a test after an update of the row `cur`.
module _ (p : Trip → Bool) (cur : Trip) (u : TripUpdate) where
  abbrev pub others : Trip → Bool
  others t = p t && not (t.id == cur.id)

  count-update_absent :
      (ts : List Trip)
      → any (has_id cur.id) ts ≡ false
      → count p (map (update_row cur.id u) ts) ≡ count others ts
  unfolding any count
  count-update_absent [] a = refl
  count-update_absent (t ∷ ts) a = ground (arith, count-update_absent ts)

  pub count-update :
      (ts : List Trip)
      → Unique ts
      → Memᴰ cur ts
      → count p (map (update_row cur.id u) ts) ≡ count others ts + bit (p (updated u cur))
  unfolding count
  count-update [] n m = elim m [ ]
  count-update (t ∷ ts) n (Memᴰ.head e) =
      let absent : any (has_id cur.id) ts ≡ false =
        subst (λ x. any (has_id x.id) ts ≡ false) (sym e) n.0 in
      subst
        (λ x.
          count p (map (update_row cur.id u) (x ∷ ts))
          ≡ count others (x ∷ ts) + bit (p (updated u cur)))
        e (ground (arith, eq_iff cur.id cur.id, count-update_absent ts absent))
  count-update (t ∷ ts) n (Memᴰ.tail m) = ground (
    arith,
    count-update ts n.1 m,
    none_of_Mem (has_id t.id) ts m n.0,
    eq_iff t.id cur.id,
    eq_iff cur.id t.id,
  )
