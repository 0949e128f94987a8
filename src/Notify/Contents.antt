-- ===== src/Notify/Contents.antt =====
-- Trimmed texts and contacts stay on their line (apps/api/src/notifications.js).
use Prim.Native.Char.{code}
use Prim.Native.String.{[], ◌∷◌}
use roadwisefleet.Prelude.{
  ℕ, String, ◌≡◌, refl, ap, ◌∙◌, Bool, true, false, not, ◌&&◌, ◌||◌, inl, inr, arith, eqb, leb,
  ◌==◌, Bool-cases,
}
use roadwisefleet.Prelude.Text.{is_space, trim_start, trim_end, trim}
use roadwisefleet.Js.{Value}
use roadwisefleet.Share.Cuts.{holds}
use roadwisefleet.Notify.Events.{Channel, email, whatsapp, sms, trimmed}
use roadwisefleet.Notify.Contacts.{is_recipient, is_email, is_phone, has_space, all_digits}
use roadwisefleet.Notify.Envelope.{has_break}
use roadwisefleet.Notify.Lines.{IsLine}

holds-trim_start : (k : ℕ) (s : String) → holds k s ≡ false → holds k (trim_start s) ≡ false
unfolding trim_start holds
holds-trim_start k [] h = refl
holds-trim_start k (c ∷ s) h = elim (Bool-cases (is_space (code c))) [
  | inl space ↦ rw space (ground (arith, holds-trim_start k s))
  | inr plain ↦ rw plain h
]

holds-trim_end : (k : ℕ) (s : String) → holds k s ≡ false → holds k (trim_end s) ≡ false
unfolding trim_end holds
holds-trim_end k [] h = refl
holds-trim_end k (c ∷ s) h = elim (Bool-cases (is_space (code c) && trim_end s == "")) [
  | inl gone ↦ rw gone refl
  | inr kept ↦ rw kept (ground (arith, holds-trim_end k s))
]

pub trim-IsLine : (s : String) → has_break s ≡ false → IsLine (trim s)
unfolding trim has_break
trim-IsLine s h = (
  holds-trim_end 10 (trim_start s) (holds-trim_start 10 s (ground (arith, h))),
  holds-trim_end 13 (trim_start s) (holds-trim_start 13 s (ground (arith, h))),
)

or_left : (a b : Bool) → (a || b) ≡ false → a ≡ false
or_left true b h = h
or_left false b h = refl

pub or_right : (a b : Bool) → (a || b) ≡ false → b ≡ false
or_right true b h = absurd (ground (arith, h))
or_right false b h = h

and_left : (a b : Bool) → (a && b) ≡ true → a ≡ true
and_left true b h = refl
and_left false b h = h

pub eqb→eq : (a b : ℕ) → eqb a b ≡ true → a ≡ b
eqb→eq a b h = ground (arith, h)

not-true : (b : Bool) → not b ≡ true → b ≡ false
not-true true h = absurd (ground (arith, h))
not-true false h = refl

pub not_both : (b : Bool) → b ≡ true → b ≡ false → ⊥
not_both b h g = ground (arith, h, g)

no_space-holds : (k : ℕ) (s : String) → is_space k ≡ true → has_space s ≡ false → holds k s ≡ false
unfolding has_space holds
no_space-holds k [] sp h = refl
no_space-holds k (c ∷ s) sp h = elim (Bool-cases (eqb (code c) k)) [
  | inl same ↦ absurd (
      not_both (is_space (code c)) (ap is_space (eqb→eq (code c) k same) ∙ sp)
        (or_left (is_space (code c)) (has_space s) h))
  | inr apart ↦ rw apart (no_space-holds k s sp (or_right (is_space (code c)) (has_space s) h))
]

digits-holds : (k : ℕ) (s : String) → leb b'0' k ≡ false → all_digits s ≡ true → holds k s ≡ false
unfolding all_digits holds
digits-holds k [] low h = refl
digits-holds k (c ∷ s) low h = ground (arith, digits-holds k s)

email-IsLine : (s : String) → is_email s ≡ true → IsLine s
unfolding is_email
email-IsLine s h =
    let spaceless = not-true (has_space s) (and_left (not (has_space s)) _ h) in
    (no_space-holds 10 s refl spaceless, no_space-holds 13 s refl spaceless)

phone-IsLine : (s : String) → is_phone s ≡ true → IsLine s
unfolding is_phone holds
phone-IsLine [] h = (refl, refl)
phone-IsLine (p ∷ []) h = absurd (ground (arith, h))
phone-IsLine (p ∷ (d ∷ s)) h =
    (ground (arith, h, digits-holds 10 s refl), ground (arith, h, digits-holds 13 s refl))

pub recipient-IsLine : (c : Channel) (v : Value) → is_recipient c v ≡ true → IsLine (trimmed v)
unfolding is_recipient
recipient-IsLine email v h = email-IsLine (trimmed v) (ground (arith, h))
recipient-IsLine whatsapp v h = phone-IsLine (trimmed v) (ground (arith, h))
recipient-IsLine sms v h = phone-IsLine (trimmed v) (ground (arith, h))
