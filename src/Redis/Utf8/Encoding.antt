-- ===== src/Redis/Utf8/Encoding.antt =====
-- `str::as_bytes`: the UTF-8 bytes of a text.
use Prim.Native.Char.{code}
use mathlib.Core.Path.{ap₂}
use text.Mathlib.TextEquality.{Char-path}
use http_gateway.Prelude.{
  ℕ, ◌+◌, ◌/◌, ◌%◌, String, ◌≡◌, ◌≢◌, refl, sym, List, [], ◌∷◌, ◌++◌, arith, ltb, if◌then◌else◌,
}

unfoldable pub encode : ℕ → List ℕ
encode c =
    if ltb c 0x80
    then c ∷ []
    else if ltb c 0x800
    then (0xc0 + c / 64) ∷ (0x80 + c % 64) ∷ []
    else if ltb c 0x10000
    then (0xe0 + c / 4096) ∷ (0x80 + c / 64 % 64) ∷ (0x80 + c % 64) ∷ []
    else (0xf0 + c / 262144) ∷ (0x80 + c / 4096 % 64) ∷ (0x80 + c / 64 % 64) ∷ (0x80 + c % 64) ∷ []

unfoldable pub as_bytes : String → List ℕ
unfolding encode
as_bytes String.[] = []
as_bytes (String.◌∷◌ c s) = encode (code c) ++ as_bytes s

encode_prefix : (c d : ℕ) (xs ys : List ℕ) → encode c ++ xs ≡ encode d ++ ys → (c ≡ d) × (xs ≡ ys)
unfolding encode
encode_prefix c d xs ys e = ground arith

append_nonempty : (c : ℕ) (xs : List ℕ) → encode c ++ xs ≢ []
unfolding encode
append_nonempty c xs e = ground arith

-- Texts with the same bytes are the same.
pub as_bytes-injective : (s t : String) → as_bytes s ≡ as_bytes t → s ≡ t
unfolding as_bytes
as_bytes-injective String.[] String.[] e = refl
as_bytes-injective String.[] (String.◌∷◌ d t) e =
    absurd (append_nonempty (code d) (as_bytes t) (sym e))
as_bytes-injective (String.◌∷◌ c s) String.[] e = absurd (append_nonempty (code c) (as_bytes s) e)
as_bytes-injective (String.◌∷◌ c s) (String.◌∷◌ d t) e =
    let (same, rest) = encode_prefix (code c) (code d) (as_bytes s) (as_bytes t) e in
    ap₂ String.◌∷◌ (Char-path c d same) (as_bytes-injective s t rest)
