-- ===== src/Prelude/Text.antt =====
-- Text operations of the language that the program uses: `trim`, `split(':')[0]`, `includes`.
use Prim.Native.Char.{code}
use Prim.Native.Nat.{ℕ}
use Prim.Native.String.{String, [], ◌∷◌}
use mathlib.Core.Bool.{Bool, ◌||◌, ◌&&◌}
use roadwisefleet.Prelude.Tests.{leb, if◌then◌else◌}
use text.Mathlib.Text.{◌==◌}

-- The white space that `String.prototype.trim` removes.
abbrev pub is_space : ℕ → Bool
is_space c =
    (leb 9 c && leb c 13)
    || leb 32 c && leb c 32
    || leb 160 c && leb c 160
    || leb 5760 c && leb c 5760
    || leb 8192 c && leb c 8202
    || leb 8232 c && leb c 8233
    || leb 8239 c && leb c 8239
    || leb 8287 c && leb c 8287
    || leb 12288 c && leb c 12288
    || leb 65279 c && leb c 65279

unfoldable pub trim_start : String → String
trim_start [] = []
trim_start (c ∷ s) = let rest = trim_start s in if is_space (code c) then rest else c ∷ s

-- Removes the white space at the end: a character stays if it is none, or if one stays behind it.
unfoldable pub trim_end : String → String
trim_end [] = []
trim_end (c ∷ s) = let rest = trim_end s in if is_space (code c) && rest == "" then "" else c ∷ rest

-- `s.trim()`
unfoldable pub trim : String → String
unfolding trim_start trim_end
trim s = trim_end (trim_start s)

-- `s.split(':')[0]`
unfoldable pub before_colon : String → String
before_colon [] = []
before_colon (c ∷ s) =
    let rest = before_colon s in if leb 58 (code c) && leb (code c) 58 then [] else c ∷ rest
