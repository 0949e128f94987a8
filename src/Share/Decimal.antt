-- ===== src/Share/Decimal.antt =====
-- Whole numbers in decimal, as `String(n)` and the template strings of apps/api/src/track-link.js
-- print them, and `Number.parseInt(s, 10)` there. The language's numbers are exact up to 2^53; these
-- are exact always.
use Prim.Native.Char.{Char, code}
use Prim.Native.Nat.{◌%◌}
use Prim.Native.String.{[], ◌∷◌}
use roadwisefleet.Prelude.{
  ℕ, zero, suc, ◌+◌, ◌-◌, ◌*◌, ◌/◌, ◌≤◌, ◌<◌, String, ◌≡◌, refl, ap, ◌∙◌, true, false, ◌&&◌, Option,
  none, some, ◌⊎◌, inl, inr, arith, eqb, leb, ltb, if◌then◌else◌,
}
use roadwisefleet.Prelude.Text.{trim_start}
use roadwisefleet.Share.Cuts.{holds, is_empty}

-- The digit of a number below ten.
unfoldable pub digit : ℕ → Char
digit d =
    if eqb d 0
    then "0"
    else if eqb d 1
    then "1"
    else if eqb d 2
    then "2"
    else if eqb d 3
    then "3"
    else if eqb d 4
    then "4"
    else if eqb d 5
    then "5"
    else if eqb d 6
    then "6"
    else if eqb d 7
    then "7"
    else if eqb d 8
    then "8"
    else "9"

-- The digits of `n` before a text; each round takes the last digit off.
unfoldable pub print_before : ℕ → ℕ → String → String
print_before zero n s = s
print_before (suc fuel) n s =
    let longer = print_before fuel (n / 10) (digit (n % 10) ∷ s) in
    if ltb n 10 then digit n ∷ s else longer

-- `${n}`
unfoldable pub print : ℕ → String
print n = print_before (suc n) n []

-- The value of the digits that a text begins with, after digits of the value `n`.
unfoldable pub read_on : ℕ → String → ℕ
read_on n [] = n
read_on n (x ∷ s) =
    let rest = read_on (n * 10 + (code x - 48)) s in
    if leb 48 (code x) && leb (code x) 57 then rest else n

-- The number that a text begins with, if it begins with a digit.
unfoldable pub read_digits : String → Option ℕ
read_digits [] = none
read_digits (x ∷ s) = if leb 48 (code x) && leb (code x) 57 then some (read_on 0 (x ∷ s)) else none

-- With a sign in front: `none` where there is no number, and where it is below 0.
unfoldable pub read_signed : String → Option ℕ
read_signed [] = none
read_signed (x ∷ s) =
    if eqb (code x) 43
    then read_digits s
    else if eqb (code x) 45
    then elim (read_digits s) [ none ↦ none | some n ↦ if eqb n 0 then some 0 else none ]
    else read_digits (x ∷ s)

-- `Number.parseInt(s, 10)`: `none` where it gives no number, or one below 0.
unfoldable pub parse_int : String → Option ℕ
parse_int s = read_signed (trim_start s)

digit-code : (d : ℕ) → d < 10 → code (digit d) ≡ 48 + d
unfolding digit
digit-code zero h = refl
digit-code (suc zero) h = refl
digit-code (suc (suc zero)) h = refl
digit-code (suc (suc (suc zero))) h = refl
digit-code (suc (suc (suc (suc zero)))) h = refl
digit-code (suc (suc (suc (suc (suc zero))))) h = refl
digit-code (suc (suc (suc (suc (suc (suc zero)))))) h = refl
digit-code (suc (suc (suc (suc (suc (suc (suc zero))))))) h = refl
digit-code (suc (suc (suc (suc (suc (suc (suc (suc zero)))))))) h = refl
digit-code (suc (suc (suc (suc (suc (suc (suc (suc (suc zero))))))))) h = refl
digit-code (suc (suc (suc (suc (suc (suc (suc (suc (suc (suc d)))))))))) h = omega arith

read_on-digit : (n d : ℕ) (s : String) → d < 10 → read_on n (digit d ∷ s) ≡ read_on (n * 10 + d) s
unfolding read_on
read_on-digit n d s h =
    let e : code (digit d) ≡ 48 + d = digit-code d h in
    let first : (leb 48 (code (digit d)) && leb (code (digit d)) 57) ≡ true = ground (arith, e) in
    let same : n * 10 + (code (digit d) - 48) ≡ n * 10 + d = omega (arith, e) in
    rw (first, same) refl

print_before-last : (fuel n : ℕ) (s : String) → n < 10 → print_before (suc fuel) n s ≡ digit n ∷ s
unfolding print_before
print_before-last fuel n s h = ground arith

print_before-more :
    (fuel n : ℕ) (s : String)
    → 10 ≤ n
    → print_before (suc fuel) n s ≡ print_before fuel (n / 10) (digit (n % 10) ∷ s)
unfolding print_before
print_before-more fuel n s h = ground arith

le_or : (n : ℕ) → (n < 10) ⊎ (10 ≤ n)
le_or n = ground arith

read_on-print_before :
    (fuel n : ℕ) (s : String) → n < fuel → read_on 0 (print_before fuel n s) ≡ read_on n s
read_on-print_before zero n s h = omega arith
read_on-print_before (suc fuel) n s h = elim (le_or n) [
  | inl small ↦
      rw (print_before-last fuel n s small)
        (read_on-digit 0 n s small ∙ ap (λ k. read_on k s) (omega arith))
  | inr big ↦ rw (print_before-more fuel n s big) (
      read_on-print_before fuel (n / 10) (digit (n % 10) ∷ s) (omega arith)
      ∙ read_on-digit (n / 10) (n % 10) s (omega arith)
      ∙ ap (λ k. read_on k s) (omega arith))
]

-- The text begins with a digit.
abbrev Begins : String → Type 0
Begins s = (d : ℕ) × (t : String) × (d < 10) × (s ≡ digit d ∷ t)

print_before-Begins : (fuel n : ℕ) (s : String) → n < fuel → Begins (print_before fuel n s)
print_before-Begins zero n s h = absurd (omega arith)
print_before-Begins (suc fuel) n s h = elim (le_or n) [
  | inl small ↦ (n, s, small, print_before-last fuel n s small)
  | inr big ↦
      rw (print_before-more fuel n s big)
        (print_before-Begins fuel (n / 10) (digit (n % 10) ∷ s) (omega arith))
]

trim_start-digit : (d : ℕ) (s : String) → d < 10 → trim_start (digit d ∷ s) ≡ digit d ∷ s
unfolding trim_start
trim_start-digit d s h = let e : code (digit d) ≡ 48 + d = digit-code d h in ground (arith, e)

read_signed-digit :
    (d : ℕ) (s : String) → d < 10 → read_signed (digit d ∷ s) ≡ some (read_on 0 (digit d ∷ s))
unfolding read_signed read_digits
read_signed-digit d s h = let e : code (digit d) ≡ 48 + d = digit-code d h in ground (arith, e)

parse_int-Begins : (s : String) → Begins s → parse_int s ≡ some (read_on 0 s)
unfolding parse_int
parse_int-Begins s (d, t, h, e) = rw e (rw (trim_start-digit d t h) (read_signed-digit d t h))

pub parse_int-print : (n : ℕ) → parse_int (print n) ≡ some n
unfolding print read_on
parse_int-print n =
    parse_int-Begins (print n) (print_before-Begins (suc n) n [] (omega arith))
    ∙ ap some (read_on-print_before (suc n) n [] (omega arith))

pub print-nonempty : (n : ℕ) → is_empty (print n) ≡ false
unfolding print is_empty
print-nonempty n = let (d, t, h, e) = print_before-Begins (suc n) n [] (omega arith) in rw e refl

holds-digit :
    (c d : ℕ) (s : String)
    → (leb 48 c && leb c 57) ≡ false
    → d < 10
    → holds c (digit d ∷ s) ≡ holds c s
unfolding holds
holds-digit c d s b h = let e : code (digit d) ≡ 48 + d = digit-code d h in ground (arith, e)

holds-print_before :
    (c fuel n : ℕ) (s : String)
    → (leb 48 c && leb c 57) ≡ false
    → holds c (print_before fuel n s) ≡ holds c s
unfolding print_before
holds-print_before c zero n s b = refl
holds-print_before c (suc fuel) n s b = elim (le_or n) [
  | inl small ↦ ap (holds c) (print_before-last fuel n s small) ∙ holds-digit c n s b small
  | inr big ↦
      ap (holds c) (print_before-more fuel n s big)
      ∙ holds-print_before c fuel (n / 10) (digit (n % 10) ∷ s) b
      ∙ holds-digit c (n % 10) s b (omega arith)
]

-- A character that is no digit is not in a number.
pub holds-print : (c n : ℕ) → (leb 48 c && leb c 57) ≡ false → holds c (print n) ≡ false
unfolding print holds
holds-print c n b = holds-print_before c (suc n) n [] b
