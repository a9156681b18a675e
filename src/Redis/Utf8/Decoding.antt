-- ===== src/Redis/Utf8/Decoding.antt =====
-- `str::from_utf8` reads back what `str::as_bytes` gives.
use Prim.Native.Char.{char, IsScalar}
use mathlib.Core.Option
use http_gateway.Prelude.{
  ℕ, suc, ◌+◌, ◌-◌, ◌*◌, ◌/◌, ◌%◌, ◌≤◌, ◌<◌, String, ◌≡◌, refl, ap, ◌∙◌, ◌⊎◌, inl, inr, some, List,
  ◌∷◌, ◌++◌, true, false, arith, ltb, leb, ◌==◌, Bool-cases,
}
use http_gateway.Redis.Utf8.{many, lead, decode, decode_rest}
use http_gateway.Redis.Utf8.Encoding.{encode, as_bytes}
use http_gateway.Redis.Policy.{chars}

-- One byte in the middle of a sequence, and the last.
decode_rest_more :
    (b more lo hi bits : ℕ) (bs : List ℕ)
    → lo ≤ b
    → b ≤ hi
    → decode_rest (b ∷ bs) (suc more) lo hi bits
      ≡ decode_rest bs more 0x80 0xbf (bits * 64 + b % 64)
unfolding decode_rest
decode_rest_more b more lo hi bits bs low high =
    let a : leb lo b ≡ true = ground arith in
    let c : leb b hi ≡ true = ground arith in
    let m : suc more - 1 ≡ more = omega arith in
    let z : (suc more == 0) ≡ false = ground arith in rw (a, c, z, m) refl

decode_rest_last :
    (b lo hi bits : ℕ) (bs : List ℕ)
    → lo ≤ b
    → b ≤ hi
    → decode_rest (b ∷ bs) 0 lo hi bits ≡ Option.map (◌∷◌ (bits * 64 + b % 64)) (decode bs)
unfolding decode_rest
decode_rest_last b lo hi bits bs low high =
    let a : leb lo b ≡ true = ground arith in
    let c : leb b hi ≡ true = ground arith in rw (a, c) refl

decode_single : (c : ℕ) (bs : List ℕ) → c < 0x80 → decode (c ∷ bs) ≡ Option.map (◌∷◌ c) (decode bs)
unfolding decode lead
decode_single c bs e = let t : ltb c 0x80 ≡ true = ground arith in rw (decode, lead, t) refl

decode_many :
    (b more lo hi bits : ℕ) (bs : List ℕ)
    → lead b ≡ many more lo hi bits
    → decode (b ∷ bs) ≡ decode_rest bs more lo hi bits
unfolding decode
decode_many b more lo hi bits bs e = rw (decode, e) refl

lead_two : (c : ℕ) → 0x80 ≤ c → c < 0x800 → lead (0xc0 + c / 64) ≡ many 0 0x80 0xbf (c / 64)
unfolding lead
lead_two c low high = ground arith

lead_three :
    (c : ℕ)
    → 0x800 ≤ c
    → c < 0x10000
    → (c < 0xd800) ⊎ (0xdfff < c)
    → (lo : ℕ) × (hi : ℕ) × (lead (0xe0 + c / 4096) ≡ many 1 lo hi (c / 4096))
      × (lo ≤ 0x80 + c / 64 % 64)
      × (0x80 + c / 64 % 64 ≤ hi)
unfolding lead
lead_three c low high scalar = elim (Bool-cases (c / 4096 == 0)) [
  | inl first ↦ (0xa0, 0xbf, ground arith, ground arith, ground arith)
  | inr later ↦ elim (Bool-cases (c / 4096 == 13)) [
    | inl surrogate ↦ (0x80, 0x9f, ground arith, ground arith, ground arith)
    | inr other ↦ (0x80, 0xbf, ground arith, ground arith, ground arith)
  ]
]

lead_four :
    (c : ℕ)
    → 0x10000 ≤ c
    → c < 0x110000
    → (lo : ℕ) × (hi : ℕ) × (lead (0xf0 + c / 262144) ≡ many 2 lo hi (c / 262144))
      × (lo ≤ 0x80 + c / 4096 % 64)
      × (0x80 + c / 4096 % 64 ≤ hi)
unfolding lead
lead_four c low high = elim (Bool-cases (c / 262144 == 0)) [
  | inl first ↦ (0x90, 0xbf, ground arith, ground arith, ground arith)
  | inr later ↦ elim (Bool-cases (c / 262144 == 4)) [
    | inl last ↦ (0x80, 0x8f, ground arith, ground arith, ground arith)
    | inr other ↦ (0x80, 0xbf, ground arith, ground arith, ground arith)
  ]
]

decode_two :
    (c : ℕ) (bs : List ℕ)
    → 0x80 ≤ c
    → c < 0x800
    → decode ((0xc0 + c / 64) ∷ (0x80 + c % 64) ∷ bs) ≡ Option.map (◌∷◌ c) (decode bs)
decode_two c bs low high =
    decode_many (0xc0 + c / 64) 0 0x80 0xbf (c / 64) ((0x80 + c % 64) ∷ bs) (lead_two c low high)
    ∙ decode_rest_last (0x80 + c % 64) 0x80 0xbf (c / 64) bs (omega arith) (omega arith)
    ∙ ap (λ n. Option.map (◌∷◌ n) (decode bs)) (omega arith)

decode_three :
    (c : ℕ) (bs : List ℕ)
    → 0x800 ≤ c
    → c < 0x10000
    → (c < 0xd800) ⊎ (0xdfff < c)
    → decode ((0xe0 + c / 4096) ∷ (0x80 + c / 64 % 64) ∷ (0x80 + c % 64) ∷ bs)
      ≡ Option.map (◌∷◌ c) (decode bs)
decode_three c bs low high scalar =
    let (lo, hi, at, above, below) = lead_three c low high scalar in
    decode_many (0xe0 + c / 4096) 1 lo hi (c / 4096) _ at
    ∙ decode_rest_more (0x80 + c / 64 % 64) 0 lo hi (c / 4096) _ above below
    ∙ decode_rest_last (0x80 + c % 64) 0x80 0xbf _ bs (omega arith) (omega arith)
    ∙ ap (λ n. Option.map (◌∷◌ n) (decode bs)) (omega arith)

decode_four :
    (c : ℕ) (bs : List ℕ)
    → 0x10000 ≤ c
    → c < 0x110000
    → decode
        ((0xf0 + c / 262144) ∷ (0x80 + c / 4096 % 64) ∷ (0x80 + c / 64 % 64) ∷ (0x80 + c % 64) ∷ bs)
      ≡ Option.map (◌∷◌ c) (decode bs)
decode_four c bs low high =
    let (lo, hi, at, above, below) = lead_four c low high in
    decode_many (0xf0 + c / 262144) 2 lo hi (c / 262144) _ at
    ∙ decode_rest_more (0x80 + c / 4096 % 64) 1 lo hi (c / 262144) _ above below
    ∙ decode_rest_more (0x80 + c / 64 % 64) 0 0x80 0xbf _ _ (omega arith) (omega arith)
    ∙ decode_rest_last (0x80 + c % 64) 0x80 0xbf _ bs (omega arith) (omega arith)
    ∙ ap (λ n. Option.map (◌∷◌ n) (decode bs)) (omega arith)

-- A scalar value is below the surrogates, or between them and the end.
IsScalar-cases : (c : ℕ) → IsScalar c → (c < 0xd800) ⊎ ((0xdfff < c) × (c < 0x110000))
IsScalar-cases c h = ground arith

decode-encode :
    (c : ℕ) (bs : List ℕ) → IsScalar c → decode (encode c ++ bs) ≡ Option.map (◌∷◌ c) (decode bs)
unfolding encode
decode-encode c bs h = elim (Bool-cases (ltb c 0x80)) [
  | inl one ↦ rw one (decode_single c bs (ground arith))
  | inr more ↦ elim (Bool-cases (ltb c 0x800)) [
    | inl two ↦ rw (more, two) (decode_two c bs (ground arith) (ground arith))
    | inr most ↦ elim (Bool-cases (ltb c 0x10000)) [
      | inl three ↦
          rw (more, most, three)
            (decode_three c bs (ground arith) (ground arith) (ground (arith, IsScalar-cases c h)))
      | inr four ↦
          rw (more, most, four)
            (decode_four c bs (ground arith) (ground (arith, IsScalar-cases c h)))
    ]
  ]
]

-- The bytes of a text are read back as its characters.
pub decode-as_bytes : (s : String) → decode (as_bytes s) ≡ some (chars s)
unfolding as_bytes chars decode
decode-as_bytes String.[] = refl
decode-as_bytes (String.◌∷◌ (char c h) s) =
    decode-encode c (as_bytes s) h ∙ ap (Option.map (◌∷◌ c)) (decode-as_bytes s)
