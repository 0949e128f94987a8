-- ===== src/Docs/Safe.antt =====
-- What a stored name can be (apps/api/src/documents.js).
use Prim.Native.Char.{code}
use Prim.Native.String.{[], ◌∷◌}
use roadwisefleet.Prelude.{
  ℕ, zero, suc, ◌≤◌, String, ◌≡◌, refl, inl, inr, Bool, true, false, not, ◌&&◌, eqb, arith,
  Bool-cases,
}
use roadwisefleet.Js.{Value, text}
use roadwisefleet.Share.Cuts.{is_empty}
use roadwisefleet.Docs.Names.{
  is_plain, drop_controls, dash_runs, drop_leading, drop_trailing, first_chars, sanitize_filename,
}

-- Only letters, digits, dots, underscores and dashes.
unfoldable pub all_plain : String → Bool
all_plain [] = true
all_plain (c ∷ s) = is_plain (code c) && all_plain s

-- The text does not begin with the character.
unfoldable pub begins_not : ℕ → String → Bool
begins_not k [] = true
begins_not k (c ∷ s) = not (eqb (code c) k)

unfoldable pub length_of : String → ℕ
length_of [] = 0
length_of (c ∷ s) = suc (length_of s)

dash_plain : is_plain b'-' ≡ true
unfolding is_plain
dash_plain = refl

dash_runs-plain : (within : Bool) (s : String) → all_plain (dash_runs within s) ≡ true
unfolding dash_runs all_plain
dash_runs-plain within [] = refl
dash_runs-plain true (c ∷ s) = ground (arith, dash_runs-plain true s, dash_runs-plain false s)
dash_runs-plain false (c ∷ s) =
    ground (arith, dash_plain, dash_runs-plain true s, dash_runs-plain false s)

pub drop_leading-plain :
    (k : ℕ) (s : String) → all_plain s ≡ true → all_plain (drop_leading k s) ≡ true
unfolding drop_leading all_plain
drop_leading-plain k [] h = refl
drop_leading-plain k (c ∷ s) h = ground (arith, drop_leading-plain k s)

pub drop_leading-begins : (k : ℕ) (s : String) → begins_not k (drop_leading k s) ≡ true
unfolding drop_leading begins_not
drop_leading-begins k [] = refl
drop_leading-begins k (c ∷ s) = ground (arith, drop_leading-begins k s)

drop_trailing-plain :
    (k : ℕ) (s : String) → all_plain s ≡ true → all_plain (drop_trailing k s) ≡ true
unfolding drop_trailing all_plain
drop_trailing-plain k [] h = refl
drop_trailing-plain k (c ∷ s) h =
    elim (Bool-cases (eqb (code c) k && is_empty (drop_trailing k s))) [
      | inl gone ↦ rw gone refl
      | inr kept ↦ rw kept (ground (arith, drop_trailing-plain k s))
    ]

first_chars-plain : (n : ℕ) (s : String) → all_plain s ≡ true → all_plain (first_chars n s) ≡ true
unfolding first_chars all_plain
first_chars-plain zero s h = refl
first_chars-plain (suc n) [] h = refl
first_chars-plain (suc n) (c ∷ s) h = ground (arith, first_chars-plain n s)

first_chars-begins :
    (n k : ℕ) (s : String) → begins_not k s ≡ true → begins_not k (first_chars n s) ≡ true
unfolding first_chars begins_not
first_chars-begins zero k s h = refl
first_chars-begins (suc n) k [] h = refl
first_chars-begins (suc n) k (c ∷ s) h = h

first_chars-length : (n : ℕ) (s : String) → length_of (first_chars n s) ≤ n
unfolding first_chars length_of
first_chars-length zero s = omega arith
first_chars-length (suc n) [] = omega arith
first_chars-length (suc n) (c ∷ s) = omega (arith, first_chars-length n s)

-- A sanitised name has only letters, digits, dots, underscores and dashes, does not begin with a
-- dot, and has at most 120 characters, whatever name was sent.
pub sanitize_filename-safe :
    (base : String → String) (name : Value)
    → (all_plain (sanitize_filename base name) ≡ true)
      × (begins_not b'.' (sanitize_filename base name) ≡ true)
      × (length_of (sanitize_filename base name) ≤ 120)
unfolding sanitize_filename all_plain begins_not length_of
sanitize_filename-safe base (text name) =
    let runs = dash_runs false (drop_controls (base name)) in
    let cleaned = drop_trailing b'-' (drop_leading b'-' runs) in
    let plain : all_plain cleaned ≡ true =
      drop_trailing-plain b'-' (drop_leading b'-' runs)
        (drop_leading-plain b'-' runs (dash_runs-plain false (drop_controls (base name)))) in
    (
      first_chars-plain 120 (drop_leading b'.' cleaned) (drop_leading-plain b'.' cleaned plain),
      first_chars-begins 120 b'.' (drop_leading b'.' cleaned) (drop_leading-begins b'.' cleaned),
      first_chars-length 120 (drop_leading b'.' cleaned),
    )
sanitize_filename-safe base _ = (refl, refl, omega arith)
