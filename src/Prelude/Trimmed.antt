-- ===== src/Prelude/Trimmed.antt =====
-- Trimming twice is trimming once.
use Prim.Native.Char.{Char, code}
use Prim.Native.String.{String, [], ◌∷◌}
use mathlib.Core.Path.{◌≡◌, refl, ap, ◌∙◌}
use mathlib.Core.Logic.{inl, inr}
use mathlib.Core.Bool.{Bool, true, false, not, ◌&&◌}
use native.Mathlib.Omega.{arith}
use text.Mathlib.Text.{◌==◌}
use roadwisefleet.Prelude.Tests.{Bool-cases}
use roadwisefleet.Prelude.Text.{is_space, trim_start, trim_end, trim}

unfoldable pub starts_plain : String → Bool
starts_plain [] = true
starts_plain (c ∷ s) = not (is_space (code c))

trim_start-plain : (s : String) → starts_plain (trim_start s) ≡ true
unfolding trim_start starts_plain
trim_start-plain [] = refl
trim_start-plain (c ∷ s) = elim (Bool-cases (is_space (code c))) [
  | inl space ↦ rw space (trim_start-plain s)
  | inr plain ↦ rw plain (rw plain refl)
]

trim_start-same : (s : String) → starts_plain s ≡ true → trim_start s ≡ s
unfolding trim_start starts_plain
trim_start-same [] h = refl
trim_start-same (c ∷ s) h = elim (Bool-cases (is_space (code c))) [
  | inl space ↦ ground (arith, space)
  | inr plain ↦ rw plain refl
]

trim_end-plain : (s : String) → starts_plain s ≡ true → starts_plain (trim_end s) ≡ true
unfolding trim_end starts_plain
trim_end-plain [] h = refl
trim_end-plain (c ∷ s) h = elim (Bool-cases (is_space (code c))) [
  | inl space ↦ ground (arith, space)
  | inr plain ↦ rw plain (rw plain refl)
]

trim_end-keeps :
    (c : Char) (s : String)
    → (is_space (code c) && trim_end s == "") ≡ false
    → trim_end (c ∷ s) ≡ c ∷ trim_end s
unfolding trim_end
trim_end-keeps c s e = rw e refl

trim_end-again : (s : String) → trim_end (trim_end s) ≡ trim_end s
unfolding trim_end
trim_end-again [] = refl
trim_end-again (c ∷ s) = elim (Bool-cases (is_space (code c) && trim_end s == "")) [
  | inl gone ↦ rw gone refl
  | inr kept ↦ rw kept (
      trim_end-keeps c (trim_end s)
        (ap (λ z. is_space (code c) && z == "") (trim_end-again s) ∙ kept)
      ∙ ap (λ z. c ∷ z) (trim_end-again s))
]

pub trim-trim : (s : String) → trim (trim s) ≡ trim s
unfolding trim
trim-trim s =
    ap trim_end (
      trim_start-same (trim_end (trim_start s))
        (trim_end-plain (trim_start s) (trim_start-plain s)))
    ∙ trim_end-again (trim_start s)
