-- ===== src/Notify/FileName.antt =====
-- The name of a notification's file: `envelopeFileName` of apps/api/src/notifications.js.
use Prim.Native.Char.{code}
use Prim.Native.String.{[], ◌∷◌, ◌++◌}
use package.text.Mathlib.TextLemmas.{cons-append}
use roadwisefleet.Prelude.{
  ℕ, String, ◌≡◌, refl, Bool, true, false, ◌&&◌, ◌||◌, arith, eqb, leb, if◌then◌else◌,
}
use roadwisefleet.Prelude.Text.{trim}
use roadwisefleet.Share.Cuts.{is_empty, holds, holds-append, is_empty-append}
use roadwisefleet.Docs.Names.{or_other}
use roadwisefleet.Docs.Safe.{begins_not}

-- `[A-Za-z0-9]`
unfoldable pub is_alphanumeric : ℕ → Bool
is_alphanumeric c =
    (leb b'A' c && leb c b'Z') || (leb b'a' c && leb c b'z') || (leb b'0' c && leb c b'9')

-- `s.replace(/[^A-Za-z0-9_-]/g, '_')`; a character of two units is replaced twice.
unfoldable pub safe_part : String → String
safe_part [] = []
safe_part (c ∷ s) =
    let rest = safe_part s in
    if is_alphanumeric (code c) || eqb (code c) b'_' || eqb (code c) b'-'
    then c ∷ rest
    else if leb 65536 (code c)
    then "_" ∷ ("_" ∷ rest)
    else "_" ∷ rest

-- `s.replace(/[^A-Za-z0-9]/g, '')`
unfoldable pub alphanumerics : String → String
alphanumerics [] = []
alphanumerics (c ∷ s) =
    let rest = alphanumerics s in if is_alphanumeric (code c) then c ∷ rest else rest

-- `s.replace(/[-:.]/g, '')`
unfoldable pub drop_marks : String → String
drop_marks [] = []
drop_marks (c ∷ s) =
    let rest = drop_marks s in
    if eqb (code c) b'-' || eqb (code c) b':' || eqb (code c) b'.' then rest else c ∷ rest

-- `envelopeFileName(event, ref, at, rand)`, where `iso` is `at.toISOString()`
unfoldable pub envelope_file_name : String → String → String → String → String
envelope_file_name event ref iso rand =
    or_other (safe_part (trim event)) "event"
    ++ ("-"
        ∷ (or_other (safe_part (trim ref)) "trip"
            ++ ("-"
                ∷ (drop_marks iso
                    ++ ("-" ∷ (or_other (alphanumerics (trim rand)) "0" ++ ".key"))))))

letters_end : (c : ℕ) → is_alphanumeric c ≡ true → eqb c b'/' ≡ false
unfolding is_alphanumeric
letters_end c h = ground (arith, h)

safe_part-slash : (s : String) → holds b'/' (safe_part s) ≡ false
unfolding safe_part holds
safe_part-slash [] = refl
safe_part-slash (c ∷ s) = ground (arith, safe_part-slash s, letters_end (code c))

alphanumerics-slash : (s : String) → holds b'/' (alphanumerics s) ≡ false
unfolding alphanumerics holds
alphanumerics-slash [] = refl
alphanumerics-slash (c ∷ s) = ground (arith, alphanumerics-slash s, letters_end (code c))

drop_marks-slash : (s : String) → holds b'/' s ≡ false → holds b'/' (drop_marks s) ≡ false
unfolding drop_marks holds
drop_marks-slash [] h = refl
drop_marks-slash (c ∷ s) h = ground (arith, h, drop_marks-slash s)

or_other-slash :
    (a b : String) → holds b'/' a ≡ false → holds b'/' b ≡ false → holds b'/' (or_other a b) ≡ false
unfolding or_other
or_other-slash a b h g = ground (arith, h, g)

-- A text, a dash and a text.
dashed :
    (a b : String)
    → holds b'/' a ≡ false
    → holds b'/' b ≡ false
    → holds b'/' (a ++ ("-" ∷ b)) ≡ false
unfolding holds
dashed a b h g = ground (arith, h, g, holds-append b'/' a ("-" ∷ b))

ending : (a : String) → holds b'/' a ≡ false → holds b'/' (a ++ ".key") ≡ false
unfolding holds
ending a h = ground (arith, h, holds-append b'/' a ".key")

word_event : holds b'/' "event" ≡ false
unfolding holds
word_event = refl

word_trip : holds b'/' "trip" ≡ false
unfolding holds
word_trip = refl

word_zero : holds b'/' "0" ≡ false
unfolding holds
word_zero = refl

-- Where the text of an instant has no slash, the name has none either, whatever the event, the
-- reference and the random text are: the file is in the spool's own directory.
pub envelope_file_name-slash :
    (event ref iso rand : String)
    → holds b'/' iso ≡ false
    → holds b'/' (envelope_file_name event ref iso rand) ≡ false
unfolding envelope_file_name
envelope_file_name-slash event ref iso rand h =
    dashed (or_other (safe_part (trim event)) "event") _
      (or_other-slash (safe_part (trim event)) "event" (safe_part-slash (trim event)) word_event)
      (dashed (or_other (safe_part (trim ref)) "trip") _
        (or_other-slash (safe_part (trim ref)) "trip" (safe_part-slash (trim ref)) word_trip)
        (dashed (drop_marks iso) _ (drop_marks-slash iso h) (
          ending (or_other (alphanumerics (trim rand)) "0") (
            or_other-slash (alphanumerics (trim rand)) "0" (alphanumerics-slash (trim rand))
              word_zero))))

begins-append :
    (k : ℕ) (a b : String)
    → is_empty a ≡ false
    → begins_not k a ≡ true
    → begins_not k (a ++ b) ≡ true
unfolding is_empty begins_not
begins-append k [] b h g = absurd (ground (arith, h))
begins-append k (c ∷ a) b h g = rw cons-append g

letters_dot : (c : ℕ) → is_alphanumeric c ≡ true → eqb c b'.' ≡ false
unfolding is_alphanumeric
letters_dot c h = ground (arith, h)

safe_part-dot : (s : String) → begins_not b'.' (safe_part s) ≡ true
unfolding safe_part begins_not
safe_part-dot [] = refl
safe_part-dot (c ∷ s) = ground (arith, letters_dot (code c))

first_part :
    (s : String)
    → (is_empty (or_other s "event") ≡ false)
      × (begins_not b'.' s ≡ true → begins_not b'.' (or_other s "event") ≡ true)
unfolding or_other is_empty begins_not
first_part [] = (refl, λ h. refl)
first_part (c ∷ s) = (refl, λ h. h)

-- The name does not begin with a dot, and is not empty.
pub envelope_file_name-dot :
    (event ref iso rand : String)
    → (begins_not b'.' (envelope_file_name event ref iso rand) ≡ true)
      × (is_empty (envelope_file_name event ref iso rand) ≡ false)
unfolding envelope_file_name
envelope_file_name-dot event ref iso rand =
    let (full, dotless) = first_part (safe_part (trim event)) in
    (
      begins-append b'.' (or_other (safe_part (trim event)) "event") _ full
          (dotless (safe_part-dot (trim event))),
      is_empty-append (or_other (safe_part (trim event)) "event") "-" _,
    )
