-- ===== src/Common/Text.antt =====
-- Text as the Go code walks it: by characters, with strings.Split on one separator. A separator
-- and the digits are ASCII, so walking code points instead of UTF-8 bytes gives the same result.
use Prim.Native.Nat.{ℕ, suc}
use Prim.Native.Char.{Char, code}
use Prim.Native.String.{String, [], ◌∷◌}
use mathlib.Core.List.{List, [], ◌∷◌}
use posduif.Common.Tests.{nat_eq, if◌then◌else◌}

-- len(s) of an ASCII text.
abbrev pub text_length : String → ℕ
text_length [] = 0
text_length (c ∷ s) = suc (text_length s)

-- Puts a character in front of the first part.
abbrev pub cons_head : Char → List String → List String
cons_head c [] = (c ∷ []) ∷ []
cons_head c (p ∷ ps) = (c ∷ p) ∷ ps

-- strings.Split(s, sep) for a separator of one character, given by its code.
unfoldable pub split : ℕ → String → List String
split sep [] = [] ∷ []
split sep (c ∷ s) =
    let rest = split sep s in if nat_eq (code c) sep then [] ∷ rest else cons_head c rest
