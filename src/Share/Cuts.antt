-- ===== src/Share/Cuts.antt =====
-- The cuts of a text at a character, which tokens and their subjects are read with
-- (apps/api/src/auth/tokens.js, apps/api/src/track-link.js).
use Prim.Native.Char.{Char, code}
use Prim.Native.String.{[], ◌∷◌, ◌++◌}
use text.Mathlib.TextLemmas.{nil-append, cons-append}
use roadwisefleet.Prelude.{
  ℕ, String, ◌≡◌, refl, Bool, true, false, ◌||◌, Option, none, some, List, arith, eqb,
  if◌then◌else◌,
}

-- `s.length === 0`
unfoldable pub is_empty : String → Bool
is_empty [] = true
is_empty (x ∷ s) = false

-- `s.includes(c)` for a text of one character, given by its number
unfoldable pub holds : ℕ → String → Bool
holds c [] = false
holds c (x ∷ s) = eqb (code x) c || holds c s

-- What stands before and behind the first occurrence: `indexOf` with the two slices.
unfoldable pub cut_first : ℕ → String → Option (String × String)
cut_first c [] = none
cut_first c (x ∷ s) =
    let rest = cut_first c s in
    if eqb (code x) c
    then some ([], s)
    else elim rest [ none ↦ none | some (a, b) ↦ some (x ∷ a, b) ]

-- The same of the last occurrence: `lastIndexOf`.
unfoldable pub cut_last : ℕ → String → Option (String × String)
cut_last c [] = none
cut_last c (x ∷ s) = elim (cut_last c s) [
  | none ↦ if eqb (code x) c then some ([], s) else none
  | some (a, b) ↦ some (x ∷ a, b)
]

-- `s.split(c)`: the first part, and the others.
unfoldable pub split : ℕ → String → String × List String
split c [] = ([], List.[])
split c (x ∷ s) =
    let (part, parts) = split c s in
    if eqb (code x) c then ([], List.◌∷◌ part parts) else (x ∷ part, parts)

-- What stands behind a prefix: `s.startsWith(p)` with `s.slice(p.length)`.
unfoldable pub strip : String → String → Option String
strip [] s = some s
strip (c ∷ p) [] = none
strip (c ∷ p) (x ∷ s) = if eqb (code c) (code x) then strip p s else none

pub cut_last-none : (c : ℕ) (s : String) → holds c s ≡ false → cut_last c s ≡ none
unfolding cut_last holds
cut_last-none c [] h = refl
cut_last-none c (x ∷ s) h = ground (arith, cut_last-none c s)

pub cut_last-append :
    (c : ℕ) (x : Char) (a b : String)
    → code x ≡ c
    → holds c b ≡ false
    → cut_last c (a ++ (x ∷ b)) ≡ some (a, b)
unfolding cut_last
cut_last-append c x [] b e h = rw nil-append (ground (arith, cut_last-none c b h))
cut_last-append c x (y ∷ a) b e h = rw cons-append (ground (arith, cut_last-append c x a b e h))

pub cut_first-append :
    (c : ℕ) (x : Char) (a b : String)
    → code x ≡ c
    → holds c a ≡ false
    → cut_first c (a ++ (x ∷ b)) ≡ some (a, b)
unfolding cut_first holds
cut_first-append c x [] b e h = rw nil-append (ground arith)
cut_first-append c x (y ∷ a) b e h = rw cons-append (ground (arith, cut_first-append c x a b e))

pub split-none : (c : ℕ) (s : String) → holds c s ≡ false → split c s ≡ (s, List.[])
unfolding split holds
split-none c [] h = refl
split-none c (x ∷ s) h = ground (arith, split-none c s)

pub split-append :
    (c : ℕ) (x : Char) (a b : String)
    → code x ≡ c
    → holds c a ≡ false
    → split c (a ++ (x ∷ b)) ≡ (a, List.◌∷◌ (split c b).0 (split c b).1)
unfolding split holds
split-append c x [] b e h = rw nil-append (ground (arith))
split-append c x (y ∷ a) b e h = rw cons-append (ground (arith, split-append c x a b e))

pub holds-append : (c : ℕ) (a b : String) → holds c (a ++ b) ≡ (holds c a || holds c b)
unfolding holds
holds-append c [] b = rw nil-append refl
holds-append c (x ∷ a) b = rw cons-append (ground (arith, holds-append c a b))

pub strip-append : (p s : String) → strip p (p ++ s) ≡ some s
unfolding strip
strip-append [] s = rw nil-append refl
strip-append (c ∷ p) s = rw cons-append (ground (arith, strip-append p s))

-- A prefix without the character does not reach beyond it.
pub strip-beyond :
    (p a : String) (x : Char) (b : String)
    → holds (code x) p ≡ false
    → strip p a ≡ none
    → strip p (a ++ (x ∷ b)) ≡ none
unfolding strip holds
strip-beyond [] a x b h e = ground arith
strip-beyond (c ∷ p) [] x b h e = rw nil-append (ground arith)
strip-beyond (c ∷ p) (y ∷ a) x b h e = rw cons-append (ground (arith, strip-beyond p a x b))

pub is_empty-append : (a : String) (x : Char) (b : String) → is_empty (a ++ (x ∷ b)) ≡ false
unfolding is_empty
is_empty-append [] x b = rw nil-append refl
is_empty-append (y ∷ a) x b = rw cons-append refl
