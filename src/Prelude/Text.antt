-- ===== src/Prelude/Text.antt =====
-- What the program uses of Rust's `str`, over the native texts, whose characters are code points.
use Prim.Native.Nat.{ℕ}
use Prim.Native.Char.{Char, code}
use Prim.Native.String.{String, [], ◌∷◌}
use mathlib.Core.Bool.{Bool, true, false, ◌&&◌, ◌||◌}
use http_gateway.Prelude.Tests.{ltb, leb, ◌==◌, if◌then◌else◌}

-- The code points with the property White_Space.
unfoldable pub is_white : ℕ → Bool
is_white n =
    (leb 9 n && leb n 13)
    || n == 32
    || n == 0x85
    || n == 0xa0
    || n == 0x1680
    || (leb 0x2000 n && leb n 0x200a)
    || n == 0x2028
    || n == 0x2029
    || n == 0x202f
    || n == 0x205f
    || n == 0x3000

-- `char::is_whitespace`.
unfoldable pub is_whitespace : Char → Bool
unfolding is_white
is_whitespace c = is_white (code c)

abbrev pub is_empty_str : String → Bool
is_empty_str [] = true
is_empty_str (c ∷ s) = false

unfoldable pub trim_start : String → String
unfolding is_whitespace
trim_start [] = []
trim_start (c ∷ s) = if is_whitespace c then trim_start s else c ∷ s

unfoldable pub trim_end : String → String
unfolding is_whitespace
trim_end [] = []
trim_end (c ∷ s) =
    let rest = trim_end s in if is_empty_str rest && is_whitespace c then [] else c ∷ rest

unfoldable pub trim : String → String
unfolding trim_start trim_end
trim s = trim_start (trim_end s)

unfoldable pub is_ascii : String → Bool
is_ascii [] = true
is_ascii (c ∷ s) = ltb (code c) 128 && is_ascii s

-- `str::starts_with(char)`.
abbrev pub starts_with_char : ℕ → String → Bool
starts_with_char n [] = false
starts_with_char n (c ∷ s) = code c == n
