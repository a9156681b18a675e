-- ===== src/Redis/Replies.antt =====
-- How the modules under src/redis_admission/ and src/redis_admission.rs read the writer's replies, and
-- the texts that they build from numbers.
pub mod Numbers
use Prim.Native.String
use http_gateway.Prelude.{
  ℕ, zero, suc, ◌+◌, ◌-◌, ◌*◌, ◌/◌, ◌%◌, ◌^◌, String, Bool, true, false, not, ◌&&◌, none, some,
  Result, ok, err, List, [], ◌∷◌, all, is_empty, leb, ltb, str_eq, if◌then◌else◌, get_elem?,
}
use http_gateway.External.Redis.{nil, okay, int, bulk_string, simple_string, Reply, reply, failed}
use http_gateway.Admission.{AdmissionError, backend, client, message}

-- `std::io::Error::other(text)`, wrapped.
abbrev pub unexpected : String → AdmissionError
unexpected text = backend (message text)

abbrev pub digits : List String
digits =
    "0" ∷ "1" ∷ "2" ∷ "3" ∷ "4" ∷ "5" ∷ "6" ∷ "7" ∷ "8" ∷ "9" ∷ "a" ∷ "b" ∷ "c" ∷ "d" ∷ "e" ∷ "f"
    ∷ []

abbrev pub digit : ℕ → String
digit n = elim (get_elem? digits n) [ none ↦ "" | some d ↦ d ]

-- `{:0kx}`: the last `k` digits of a number in base 16.
unfoldable pub hex : ℕ → ℕ → String
hex zero n = ""
hex (suc k) n = String.◌++◌ (hex k (n / 16)) (digit (n % 16))

-- `{}` of a number with `k` digits at most.
unfoldable pub show_digits : ℕ → ℕ → String
show_digits zero n = ""
show_digits (suc k) n =
    let more = String.◌++◌ (show_digits k (n / 10)) (digit (n % 10)) in
    if ltb n 10 then digit n else more

-- A number of 64 bits has 20 digits at most.
unfoldable pub show : ℕ → String
unfolding show_digits
show n = show_digits 20 n

abbrev pub is_digit : ℕ → Bool
is_digit b = leb b'0' b && leb b b'9'

-- The value of decimal digits, after `n`.
unfoldable pub decimal : ℕ → List ℕ → ℕ
decimal n [] = n
decimal n (b ∷ bs) = decimal (n * 10 + (b - b'0')) bs

abbrev pub u64_max : ℕ
u64_max = 2 ^ 64 - 1

-- A number that is stored as decimal digits, and zero where the key is missing.
unfoldable pub read_number : AdmissionError → Reply → Result AdmissionError ℕ
unfolding decimal
read_number invalid (reply nil) = ok 0
read_number invalid (reply (bulk_string bytes)) =
    if not (is_empty bytes) && all is_digit bytes && leb (decimal 0 bytes) u64_max
    then ok (decimal 0 bytes)
    else err invalid
read_number invalid failed = err (backend client)
read_number invalid (reply v) = err invalid

-- The reply of `reserve`: whether the slot was free.
unfoldable pub read_reserved : Reply → Result AdmissionError Bool
read_reserved (reply okay) = ok true
read_reserved (reply (simple_string s)) =
    if str_eq s "OK"
    then ok true
    else err (unexpected "unexpected Redis admission acquisition response")
read_reserved (reply nil) = ok false
read_reserved failed = err (backend client)
read_reserved (reply v) = err (unexpected "unexpected Redis admission acquisition response")

-- The reply to a script: whether it found the token; `text` is the message of the caller.
unfoldable pub read_transition : String → Reply → Result AdmissionError Bool
read_transition text (reply (int zero)) = ok false
read_transition text (reply (int (suc zero))) = ok true
read_transition text failed = err (backend client)
read_transition text (reply v) = err (unexpected text)
