-- ===== src/Redis/Replies/Numbers.antt =====
-- The texts that src/redis_admission.rs and src/redis_admission/lease.rs build from numbers.
use Prim.Native.Char.{code}
use Prim.Native.String
use text.Mathlib.TextLemmas.{nil-append, cons-append}
use native.Mathlib.Nat.{pow-suc}
use http_gateway.Prelude.{
  ℕ, zero, suc, ◌+◌, ◌-◌, ◌*◌, ◌/◌, ◌%◌, ◌^◌, ◌<◌, String, ◌≡◌, refl, sym, ap, ◌∙◌, inl, inr, true,
  false, List, [], ◌∷◌, ◌++◌, arith, ltb, if◌then◌else◌, Bool-cases, length, length-append,
  get_elem?, all, is_empty, none, some,
}
use http_gateway.Redis.Policy.{chars}
use http_gateway.Redis.Replies.{digits, digit, hex, show_digits, decimal, is_digit}

pub chars-append : (s t : String) → chars (String.◌++◌ s t) ≡ chars s ++ chars t
unfolding chars
chars-append String.[] t = ap chars (nil-append t)
chars-append (String.◌∷◌ c s) t =
    ap chars (cons-append c s t) ∙ ap (◌∷◌ (code c)) (chars-append s t)

-- The code of a digit.
abbrev pub digit_code : ℕ → ℕ
digit_code n = if ltb n 10 then 48 + n else 87 + n

-- The texts are the digits from `n` on.
abbrev AreDigits : ℕ → List String → Type 0
AreDigits n [] = Unit {0}
AreDigits n (s ∷ ss) = (chars s ≡ digit_code n ∷ []) × AreDigits (suc n) ss

AreDigits-get_elem? :
    (n m : ℕ) (ss : List String) (i : ℕ)
    → AreDigits n ss
    → i < length ss
    → m ≡ n + i
    → chars (elim (get_elem? ss i) [ none ↦ "" | some d ↦ d ]) ≡ digit_code m ∷ []
AreDigits-get_elem? n m [] i h e same = absurd (omega (arith, e))
AreDigits-get_elem? n m (s ∷ ss) zero h e same = let at : m ≡ n = omega (arith, same) in rw at h.0
AreDigits-get_elem? n m (s ∷ ss) (suc i) h e same =
    AreDigits-get_elem? (suc n) m ss i h.1 (omega (arith, e)) (omega (arith, same))

digits-AreDigits : AreDigits 0 digits
unfolding chars
digits-AreDigits = (
  refl,
  (
    refl,
    (
      refl,
      (
        refl,
        (
          refl,
          (
            refl,
            (refl, (refl, (refl, (refl, (refl, (refl, (refl, (refl, (refl, (refl, tt)))))))))),
          ),
        ),
      ),
    ),
  ),
)

pub chars-digit : (n : ℕ) → n < 16 → chars (digit n) ≡ digit_code n ∷ []
chars-digit n e = AreDigits-get_elem? 0 n digits n digits-AreDigits e (omega arith)

decimal-append : (n : ℕ) (xs ys : List ℕ) → decimal n (xs ++ ys) ≡ decimal (decimal n xs) ys
unfolding decimal
decimal-append n [] ys = refl
decimal-append n (x ∷ xs) ys = decimal-append (n * 10 + (x - 48)) xs ys

-- A text that is read as a number: decimal digits, one at least, worth `n`.
pub record Reads (n : ℕ) (xs : List ℕ) : Type 0 where
  pub some_digit : is_empty xs ≡ false
  pub all_digits : all is_digit xs ≡ true
  pub worth : decimal 0 xs ≡ n

all-append :
    (xs ys : List ℕ)
    → all is_digit xs ≡ true
    → all is_digit ys ≡ true
    → all is_digit (xs ++ ys) ≡ true
all-append [] ys a b = b
all-append (x ∷ xs) ys a b = ground (arith, all-append xs ys)

is_empty-append : (xs : List ℕ) (y : ℕ) → is_empty (xs ++ y ∷ []) ≡ false
is_empty-append [] y = refl
is_empty-append (x ∷ xs) y = refl

digit_code-Reads : (n : ℕ) → n < 10 → Reads n (digit_code n ∷ [])
unfolding decimal
digit_code-Reads n e = record { some_digit = refl; all_digits = ground arith; worth = ground arith }

-- One more digit.
Reads-append :
    (n d : ℕ) (xs : List ℕ) → Reads n xs → d < 10 → Reads (n * 10 + d) (xs ++ digit_code d ∷ [])
unfolding decimal
Reads-append n d xs r e = record {
  some_digit = is_empty-append xs (digit_code d);
  all_digits = all-append xs (digit_code d ∷ []) r.all_digits (digit_code-Reads d e).all_digits;
  worth =
      decimal-append 0 xs (digit_code d ∷ [])
      ∙ ap (λ m. decimal m (digit_code d ∷ [])) r.worth
      ∙ ground arith;
}

pub show_digits-Reads : (k n : ℕ) → n < 10 ^ suc k → Reads n (chars (show_digits (suc k) n))
unfolding show_digits
show_digits-Reads zero n e =
    let short : ltb n 10 ≡ true = ground (arith, e) in
    rw (short, chars-digit n (ground (arith, e))) (digit_code-Reads n (ground (arith, e)))
show_digits-Reads (suc k) n e = elim (Bool-cases (ltb n 10)) [
  | inl short ↦ rw (short, chars-digit n (ground arith)) (digit_code-Reads n (ground arith))
  | inr long ↦
      let ten : 10 ^ suc (suc k) ≡ 10 ^ suc k * 10 = pow-suc 10 (suc k) in
      let shorter = show_digits-Reads k (n / 10) (omega (arith, ten)) in
      let worth : n / 10 * 10 + n % 10 ≡ n = omega arith in
      rw (long, chars-append, chars-digit (n % 10) (omega arith))
        (rw worth at (Reads-append (n / 10) (n % 10) _ shorter (omega arith)))
]

abbrev hex_digit : ℕ → ℕ
hex_digit c = if ltb c 58 then c - 48 else c - 87

unfoldable hexadecimal : ℕ → List ℕ → ℕ
hexadecimal n [] = n
hexadecimal n (c ∷ cs) = hexadecimal (n * 16 + hex_digit c) cs

hexadecimal-append :
    (n : ℕ) (xs ys : List ℕ) → hexadecimal n (xs ++ ys) ≡ hexadecimal (hexadecimal n xs) ys
unfolding hexadecimal
hexadecimal-append n [] ys = refl
hexadecimal-append n (x ∷ xs) ys = hexadecimal-append (n * 16 + hex_digit x) xs ys

hexadecimal_digit : (acc n : ℕ) → n < 16 → hexadecimal acc (digit_code n ∷ []) ≡ acc * 16 + n
unfolding hexadecimal
hexadecimal_digit acc n e = ground arith

hexadecimal-hex : (k n : ℕ) → n < 16 ^ k → hexadecimal 0 (chars (hex k n)) ≡ n
unfolding hexadecimal hex chars
hexadecimal-hex zero n e = omega (arith, e)
hexadecimal-hex (suc k) n e =
    ap (hexadecimal 0) (
      chars-append (hex k (n / 16)) (digit (n % 16))
      ∙ ap (λ x. chars (hex k (n / 16)) ++ x) (chars-digit (n % 16) (omega arith)))
    ∙ hexadecimal-append 0 (chars (hex k (n / 16))) (digit_code (n % 16) ∷ [])
    ∙ hexadecimal_digit _ (n % 16) (omega arith)
    ∙ ap (λ x. x * 16 + n % 16)
        (hexadecimal-hex k (n / 16)
          (let more : 16 ^ suc k ≡ 16 ^ k * 16 = pow-suc 16 k in omega (arith, e, more)))
    ∙ omega arith

pub length-hex : (k n : ℕ) → length (chars (hex k n)) ≡ k
unfolding hex chars
length-hex zero n = refl
length-hex (suc k) n =
    let digits_of = chars-append (hex k (n / 16)) (digit (n % 16)) in
    let last = chars-digit (n % 16) (omega arith) in
    let all_of = length-append (chars (hex k (n / 16))) (digit_code (n % 16) ∷ []) in
    rw (digits_of, last) (omega (arith, all_of, length-hex k (n / 16)))

-- Numbers of `k` digits in base 16 at most are told apart by their texts.
pub hex-injective :
    (k m n : ℕ) → m < 16 ^ k → n < 16 ^ k → chars (hex k m) ≡ chars (hex k n) → m ≡ n
hex-injective k m n a b e =
    sym (hexadecimal-hex k m a) ∙ ap (hexadecimal 0) e ∙ hexadecimal-hex k n b
