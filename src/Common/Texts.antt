-- ===== src/Common/Texts.antt =====
-- Texts as their code points, the character classes of regular expressions, and the lengths that
-- JavaScript gives.
use Prim.Native.Nat.{ℕ, ◌+◌}
use Prim.Native.String.{String}
use Prim.Native.Char.{code}
use mathlib.Core.Bool.{Bool, ◌&&◌, ◌||◌}
use mathlib.Core.List.{List, [], ◌∷◌}
use wordpress.Common.Tests.{ltb, leb, if◌then◌else◌}

unfoldable pub codes : String → List ℕ
codes String.[] = []
codes (String.◌∷◌ c s) = code c ∷ codes s

-- `[a-z]`, `[A-Z]`, `[0-9]`
abbrev pub is_lower : ℕ → Bool
is_lower n = leb 97 n && leb n 122

abbrev pub is_upper : ℕ → Bool
is_upper n = leb 65 n && leb n 90

abbrev pub is_digit : ℕ → Bool
is_digit n = leb 48 n && leb n 57

abbrev pub is_alnum : ℕ → Bool
is_alnum n = is_lower n || is_upper n || is_digit n

-- The number of UTF-16 units, `s.length`.
abbrev pub utf16_units : List ℕ → ℕ
utf16_units [] = 0
utf16_units (n ∷ ns) = (if ltb 65_535 n then 2 else 1) + utf16_units ns

unfoldable pub utf16_length : String → ℕ
unfolding codes
utf16_length s = utf16_units (codes s)
