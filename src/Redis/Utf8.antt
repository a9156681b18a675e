-- ===== src/Redis/Utf8.antt =====
-- `std::str::from_utf8`: the code points of well-formed UTF-8 bytes.
pub mod Encoding
pub mod Decoding
use http_gateway.Prelude.{
  ℕ, ◌+◌, ◌-◌, ◌*◌, ◌%◌, ◌&&◌, Option, none, some, List, [], ◌∷◌, leb, ltb, ◌==◌, if◌then◌else◌,
}
use mathlib.Core.Option

-- What a leading byte announces: how many bytes follow, the range of the first of them, and its
-- bits. `invalid` is no leading byte.
pub data Lead : Type 0 where
  single invalid : Lead
  many : (more lo hi bits : ℕ) → Lead

unfoldable pub lead : ℕ → Lead
lead b =
    if ltb b 0x80
    then single
    else if ltb b 0xc2
    then invalid
    else if ltb b 0xe0
    then many 0 0x80 0xbf (b % 32)
    else if b == 0xe0
    then many 1 0xa0 0xbf 0
    else if b == 0xed
    then many 1 0x80 0x9f 13
    else if ltb b 0xf0
    then many 1 0x80 0xbf (b % 16)
    else if b == 0xf0
    then many 2 0x90 0xbf 0
    else if ltb b 0xf4
    then many 2 0x80 0xbf (b % 8)
    else if b == 0xf4
    then many 2 0x80 0x8f 4
    else invalid

-- In the middle of a sequence: how many bytes follow the next, its range, and the bits so far.
unfoldable mutual
  pub decode : List ℕ → Option (List ℕ)
  decode [] = some []
  decode (b ∷ bs) = elim (lead b) [
    | single ↦ Option.map (◌∷◌ b) (decode bs)
    | invalid ↦ none
    | many more lo hi bits ↦ decode_rest bs more lo hi bits
  ]

  pub decode_rest : List ℕ → ℕ → ℕ → ℕ → ℕ → Option (List ℕ)
  decode_rest [] more lo hi bits = none
  decode_rest (b ∷ bs) more lo hi bits =
      let value = bits * 64 + b % 64 in
      let closed = Option.map (◌∷◌ value) (decode bs) in
      let rest = decode_rest bs (more - 1) 0x80 0xbf value in
      if leb lo b && leb b hi then if more == 0 then closed else rest else none
