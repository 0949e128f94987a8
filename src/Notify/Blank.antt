-- ===== src/Notify/Blank.antt =====
-- No variable that is given is blank (apps/api/src/notifications.js).
use Prim.Native.Char.{Char, code}
use Prim.Native.String.{[], ◌∷◌, ◌++◌}
use roadwisefleet.Prelude.{
  ℕ, String, ◌≡◌, refl, sym, ap, ◌∙◌, Bool, true, false, ◌&&◌, ◌||◌, inl, inr, Option, none, some,
  arith, eqb, ◌==◌, eq_iff, if◌then◌else◌, Bool-cases,
}
use roadwisefleet.Prelude.Text.{is_space, trim_start, trim_end, trim}
use roadwisefleet.Js.{Value, Number}
use roadwisefleet.Share.Cuts.{is_empty, holds, holds-append}
use roadwisefleet.Docs.Names.{or_other, first_chars}
use roadwisefleet.Notify.Events.{Variable, trimmed}
use roadwisefleet.Notify.Contents.{eqb→eq, not_both}
use roadwisefleet.Notify.FileName.{alphanumerics}
use roadwisefleet.Notify.Emit.{drop_chars}
use roadwisefleet.Notify.Live.{trimmed-trimmed}
use roadwisefleet.Notify.Refs.{
  Formats, number_of, instant_of, trip_ref_of, invoice_ref_for, format_money, format_eta,
}
use roadwisefleet.Notify.Vars.{Context, ref_of, var_of}

-- A character that is no white space is found behind one that is.
past_space :
    (k c : ℕ) (rest : Bool)
    → is_space k ≡ false
    → is_space c ≡ true
    → (eqb c k || rest) ≡ true
    → rest ≡ true
past_space k c rest plain space h = elim (Bool-cases (eqb c k)) [
  | inl same ↦ absurd (not_both (is_space k) (ap is_space (sym (eqb→eq c k same)) ∙ space) plain)
  | inr apart ↦ sym (ap (λ b. b || rest) apart) ∙ h
]

stays-trim_start :
    (k : ℕ) (s : String) → is_space k ≡ false → holds k s ≡ true → holds k (trim_start s) ≡ true
unfolding trim_start holds
stays-trim_start k [] plain h = h
stays-trim_start k (c ∷ s) plain h = elim (Bool-cases (is_space (code c))) [
  | inl space ↦
      rw space (stays-trim_start k s plain (past_space k (code c) (holds k s) plain space h))
  | inr kept ↦ rw kept h
]

holds-cons :
    (k : ℕ) (c : Char) (s t : String)
    → (holds k s ≡ true → holds k t ≡ true)
    → holds k (c ∷ s) ≡ true
    → holds k (c ∷ t) ≡ true
unfolding holds
holds-cons k c s t f h = elim (Bool-cases (eqb (code c) k)) [
  | inl same ↦ rw same refl
  | inr apart ↦ rw apart (f (sym (ap (λ b. b || holds k s) apart) ∙ h))
]

is_blank : (s : String) → (s == "") ≡ true → s ≡ ""
is_blank s e = ground (arith, e, eq_iff s "")

not_blank : (k : ℕ) (s : String) → holds k s ≡ true → (s == "") ≡ true → ⊥
unfolding holds
not_blank k s h e = not_both (holds k s) h (ap (holds k) (is_blank s e))

holds_step :
    (k : ℕ) (c : Char) (s : String) → holds k (c ∷ s) ≡ true → (eqb (code c) k || holds k s) ≡ true
unfolding holds
holds_step k c s h = h

and_both : (a b : Bool) → (a && b) ≡ true → (a ≡ true) × (b ≡ true)
and_both true b h = (refl, h)
and_both false b h = absurd (not_both false h refl)

stays-trim_end :
    (k : ℕ) (s : String) → is_space k ≡ false → holds k s ≡ true → holds k (trim_end s) ≡ true
unfolding trim_end
stays-trim_end k [] plain h = h
stays-trim_end k (c ∷ s) plain h = elim (Bool-cases (is_space (code c) && trim_end s == "")) [
  | inl gone ↦
      let (space, blank) = and_both (is_space (code c)) (trim_end s == "") gone in
      absurd (not_blank k (trim_end s) (stays-trim_end k s plain (behind space)) blank)
  | inr kept ↦ rw kept (holds-cons k c s (trim_end s) (λ g. stays-trim_end k s plain g) h)
]
  where
    behind : is_space (code c) ≡ true → holds k s ≡ true
    behind space = past_space k (code c) (holds k s) plain space (holds_step k c s h)

holds-full : (k : ℕ) (s : String) → holds k s ≡ true → is_empty s ≡ false
unfolding holds is_empty
holds-full k [] h = sym h
holds-full k (c ∷ s) h = refl

-- A text that is not blank unless it is empty.
abbrev pub IsText : String → Type 0
IsText s = is_empty (trim s) ≡ is_empty s

holds-IsText : (k : ℕ) (s : String) → is_space k ≡ false → holds k s ≡ true → IsText s
unfolding trim
holds-IsText k s plain h =
    holds-full k (trim s) (stays-trim_end k (trim_start s) plain (stays-trim_start k s plain h))
    ∙ sym (holds-full k s h)

or_true : (a : Bool) → (a || true) ≡ true
or_true true = refl
or_true false = refl

prefixed-IsText : (k : ℕ) (a b : String) → is_space k ≡ false → holds k a ≡ true → IsText (a ++ b)
prefixed-IsText k a b plain h =
    holds-IsText k (a ++ b) plain (holds-append k a b ∙ ap (λ z. z || holds k b) h)

ending-IsText : (k : ℕ) (a b : String) → is_space k ≡ false → holds k b ≡ true → IsText (a ++ b)
ending-IsText k a b plain h =
    holds-IsText k (a ++ b) plain
      (holds-append k a b ∙ ap (λ z. holds k a || z) h ∙ or_true (holds k a))

pub empty-IsText : IsText ""
unfolding trim trim_start trim_end
empty-IsText = refl

if-IsText : (b : Bool) (s t : String) → IsText s → IsText t → IsText (if b then s else t)
if-IsText true s t h g = h
if-IsText false s t h g = g

or_other-IsText : (s t : String) → IsText s → IsText t → IsText (or_other s t)
unfolding or_other
or_other-IsText s t h g = if-IsText (is_empty s) t s g h

trimmed-IsText : (v : Value) → IsText (trimmed v)
unfolding trimmed
trimmed-IsText v = ap is_empty (trimmed-trimmed v)

trip_ref_of-IsText : (upper : String → String) (a b c : Value) → IsText (trip_ref_of upper a b c)
unfolding trip_ref_of holds
trip_ref_of-IsText upper a b c =
    if-IsText (is_empty (or_other (or_other (trimmed a) (trimmed b)) (trimmed c))) "" _ empty-IsText
      (prefixed-IsText b'R' "RWF-" _ refl refl)

invoice_ref_for-IsText : (upper : String → String) (v : Value) → IsText (invoice_ref_for upper v)
unfolding invoice_ref_for holds
invoice_ref_for-IsText upper v =
    if-IsText (is_empty (upper (alphanumerics (trimmed v)))) "" _ empty-IsText
      (prefixed-IsText b'I' "INV-" _ refl refl)

format_money-IsText : (f : Formats) (v : Value) → IsText (format_money f v)
unfolding format_money holds
format_money-IsText f v = of_number (number_of f v)
  where
    of_number :
        (o : Option Number) → IsText (elim o [ none ↦ "" | some n ↦ f.to_fixed n ++ " EUR" ])
    of_number none = empty-IsText
    of_number (some n) = ending-IsText b'E' (f.to_fixed n) " EUR" refl refl

eta_text : String → String
eta_text iso = first_chars 10 iso ++ (" " ++ (first_chars 5 (drop_chars 11 iso) ++ " UTC"))

eta_text-IsText : (iso : String) → IsText (eta_text iso)
unfolding eta_text holds
eta_text-IsText iso =
    ending-IsText b'U' (first_chars 10 iso) (" " ++ (first_chars 5 (drop_chars 11 iso) ++ " UTC"))
      refl
      (holds-append b'U' " " (first_chars 5 (drop_chars 11 iso) ++ " UTC")
        ∙ holds-append b'U' (first_chars 5 (drop_chars 11 iso)) " UTC"
        ∙ or_true (holds b'U' (first_chars 5 (drop_chars 11 iso))))

format_eta-IsText : (f : Formats) (v : Value) → IsText (format_eta f v)
unfolding format_eta eta_text
format_eta-IsText f v = of_instant (instant_of f v)
  where
    of_instant :
        (o : Option ℕ)
        → IsText (elim o [
          | none ↦ ""
          | some at ↦
              first_chars 10 (f.iso at)
              ++ (" " ++ (first_chars 5 (drop_chars 11 (f.iso at)) ++ " UTC"))
        ])
    of_instant none = empty-IsText
    of_instant (some at) = eta_text-IsText (f.iso at)

pub var_of-IsText : (f : Formats) (ctx : Context) (v : Variable) → IsText (var_of f ctx v)
unfolding var_of ref_of
var_of-IsText f ctx Variable.customer_name = trimmed-IsText _
var_of-IsText f ctx Variable.trip_ref =
    or_other-IsText (trimmed ctx.ref) _ (trimmed-IsText ctx.ref) (trip_ref_of-IsText f.upper _ _ _)
var_of-IsText f ctx Variable.pickup = trimmed-IsText _
var_of-IsText f ctx Variable.delivery = trimmed-IsText _
var_of-IsText f ctx Variable.carrier_name = trimmed-IsText _
var_of-IsText f ctx Variable.price = format_money-IsText f _
var_of-IsText f ctx Variable.driver_name = trimmed-IsText _
var_of-IsText f ctx Variable.vehicle = trimmed-IsText _
var_of-IsText f ctx Variable.eta = format_eta-IsText f _
var_of-IsText f ctx Variable.link = trimmed-IsText ctx.link
var_of-IsText f ctx Variable.invoice_ref =
    or_other-IsText _ _ (trimmed-IsText _) (invoice_ref_for-IsText f.upper _)
var_of-IsText f ctx Variable.amount = format_money-IsText f _
