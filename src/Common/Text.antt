-- ===== src/Common/Text.antt =====
-- JavaScript's text functions that the program calls. A text is a sequence of code points.
use Prim.Native.Nat.{ℕ, ◌+◌}
use Prim.Native.Char.{code}
use Prim.Native.String.{String}
use mathlib.Core.Bool.{Bool, true, ◌&&◌, ◌||◌}
use mathlib.Core.List.{List, [], ◌∷◌}
use agentknot.Common.Tests.{ltb, leb, ◌==◌, if◌then◌else◌}

abbrev pub codes : String → List ℕ
codes String.[] = []
codes (String.◌∷◌ c s) = code c ∷ codes s

-- The characters that `trim` removes.
unfoldable pub is_space : ℕ → Bool
is_space c =
    (leb 9 c && leb c 13)
    || c == 32
    || c == 160
    || c == 0x1680
    || (leb 0x2000 c && leb c 0x200a)
    || c == 0x2028
    || c == 0x2029
    || c == 0x202f
    || c == 0x205f
    || c == 0x3000
    || c == 0xfeff

blank_codes : List ℕ → Bool
blank_codes [] = true
blank_codes (c ∷ cs) = is_space c && blank_codes cs

-- `text.trim() === ''`
unfoldable pub is_blank : String → Bool
unfolding blank_codes is_space
is_blank s = blank_codes (codes s)

units : List ℕ → ℕ
units [] = 0
units (c ∷ cs) = (if ltb c 0x10000 then 1 else 2) + units cs

-- `text.length`, in UTF-16 code units.
unfoldable pub utf16_length : String → ℕ
unfolding units
utf16_length s = units (codes s)

bytes : List ℕ → ℕ
bytes [] = 0
bytes (c ∷ cs) =
    (if ltb c 0x80 then 1 else if ltb c 0x800 then 2 else if ltb c 0x10000 then 3 else 4) + bytes cs

-- `Buffer.byteLength(text, 'utf8')`
unfoldable pub utf8_bytes : String → ℕ
unfolding bytes
utf8_bytes s = bytes (codes s)
