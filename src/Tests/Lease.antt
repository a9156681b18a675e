-- ===== src/Tests/Lease.antt =====
-- A run of src/redis_admission/lease.rs: a gateway that takes the one slot.
use Prim.Native.String.{[], ◌∷◌}
use mathlib.Core.List.{List, [], ◌∷◌}
use http_gateway.Prelude.{
  ℕ, zero, suc, ◌≤◌, sym, ap, ◌∙◌, ok, ltb, String, ◌≡◌, refl, true, none, some, arith, length,
}
use http_gateway.External.Redis.{get, set_nx_px, reply, bulk_string, okay}
use http_gateway.Redis.Replies.{show, show_digits, read_number, read_reserved, decimal}
use http_gateway.Redis.Scripts.{run_set}
use http_gateway.Redis.Lease.{Holder, refresh, scan, scan_order, range, read_limit}
use http_gateway.Redis.Lease.World.{
  World, Reach, here, next, start, begin, submit, execute, answer, pick, tell, own, make_valid,
  reads, sets,
}
use http_gateway.Redis.Lease.Steps.{AreSetUp}
use http_gateway.Redis.Lease.Participation.{
  Participates, OwnsSlot, Participates-OwnsSlot, length-Participates-le,
}
use http_gateway.Redis.Execution.{stored}
use http_gateway.Redis.Utf8.Encoding.{as_bytes, encode}
use http_gateway.Redis.Lease.Progress.{IsFree, Takes, refresh-Takes}
use http_gateway.Prelude.{str_eq, if◌then◌else◌}
use http_gateway.Tests.Keys.{Keys, keys, look}

-- The token of a gateway: as many marks as its number.
unfoldable marks : ℕ → String
marks zero = []
marks (suc n) = "x" ∷ marks n

unfoldable count_marks : String → ℕ
count_marks [] = 0
count_marks (c ∷ s) = suc (count_marks s)

count_marks-marks : (n : ℕ) → count_marks (marks n) ≡ n
unfolding marks count_marks
count_marks-marks zero = refl
count_marks-marks (suc n) = ap suc (count_marks-marks n)

marks-injective : (i j : ℕ) → marks i ≡ marks j → i ≡ j
marks-injective i j e = sym (count_marks-marks i) ∙ ap count_marks e ∙ count_marks-marks j

abbrev holder : ℕ → Holder
holder i = record { prefix = "app"; token = marks (suc i); lease_ttl = 30_000 }

holder-AreSetUp : AreSetUp keys holder 1
holder-AreSetUp = record {
  tokens = λ i j apart same. apart (ground (arith, marks-injective (suc i) (suc j) same));
  positive = λ i. omega arith;
}

abbrev empty : Keys
empty k = none

abbrev Run : Type 0
Run = (w : World keys) × Reach keys holder 1 (start keys empty 500) w

limit_reply : read_limit (reply (bulk_string (49 ∷ []))) ≡ ok 1
unfolding read_limit read_number decimal
limit_reply = refl

limit_possible : (n : ℕ) → read_limit (reply (bulk_string (49 ∷ []))) ≡ ok n → n ≤ 1
limit_possible n e = ground (arith, limit_reply)

-- The limit is one; the gateway finds the slot free, and takes it.
abbrev started : Run
started = (_, next here (begin 0 refl))

abbrev asked : Run
unfolding refresh
asked = (_, next started.1 (submit 0 (get "app:max-gateways") _ refl))

abbrev read : Run
unfolding refresh
read = (
  _,
  next asked.1 (
      execute 0 (get "app:max-gateways") (bulk_string (49 ∷ [])) _ refl
        (reads "app:max-gateways" limit_possible refl)),
)

abbrev limited : Run
unfolding refresh read_limit read_number decimal
limited = (_, next read.1 (answer 0 (get "app:max-gateways") _ (bulk_string (49 ∷ [])) refl refl))

abbrev picked : Run
unfolding refresh read_limit read_number decimal
picked = (_, next limited.1 (pick 0 5 _ refl))

abbrev timed : Run
unfolding refresh read_limit read_number decimal scan scan_order range show show_digits
timed = (_, next picked.1 (tell 0 _ refl))

abbrev claimed : Run
unfolding refresh read_limit read_number decimal scan scan_order range show show_digits
claimed = (_, next timed.1 (own 0 (some 0) _ refl))

abbrev bid : Run
unfolding refresh read_limit read_number decimal scan scan_order range show show_digits marks
bid = (_, next claimed.1 (submit 0 (set_nx_px "app:gateway:0" "x" 30_000) _ refl))

abbrev set_down : Run
unfolding refresh read_limit read_number decimal scan scan_order range show show_digits marks
    run_set
set_down = (
  _,
  next bid.1 (
      execute 0 (set_nx_px "app:gateway:0" "x" 30_000) okay _ refl
        (sets "app:gateway:0" "x" 30_000 refl)),
)

abbrev accepted : Run
unfolding refresh read_limit read_number decimal scan scan_order range show show_digits marks
    run_set read_reserved
accepted = (_, next set_down.1 (answer 0 (set_nx_px "app:gateway:0" "x" 30_000) _ okay refl refl))

abbrev taken : Run
unfolding refresh read_limit read_number decimal scan scan_order range show show_digits marks
    run_set read_reserved
taken = (_, next accepted.1 (make_valid 0 30_500 _ refl))

early : ltb 500 30_500 ≡ true
early = ground arith

taken-Participates : Participates keys holder 1 taken.0 0
unfolding taken
taken-Participates = early

abbrev only_first : List ℕ
only_first = 0 ∷ []

Participates-OwnsSlot_example : (slot : ℕ) × OwnsSlot keys holder 1 taken.0 0 slot
Participates-OwnsSlot_example =
    Participates-OwnsSlot keys holder 1 holder-AreSetUp empty 500 0 taken.1 taken-Participates

length-Participates-le_example : length only_first ≤ 1
length-Participates-le_example =
    length-Participates-le keys holder 1 holder-AreSetUp (λ i j. refl) empty 500 only_first taken.1
      (tt, tt) (taken-Participates, tt)

-- The limit is one, and nothing else is stored.
abbrev one_limit : Keys
one_limit k = if str_eq "app:max-gateways" k then some ("1", 90_000) else none

limit_stored : read_limit (reply (stored (look one_limit 500 "app:max-gateways"))) ≡ ok 1
unfolding read_limit read_number decimal as_bytes encode
limit_stored = refl

one_limit-IsFree : IsFree keys (holder 0) 500 5 one_limit 0
unfolding show show_digits
one_limit-IsFree = refl

refresh-Takes_example :
    Takes keys
      (holder 0)
      500
      5
      1
      (refresh (holder 0) none)
      (record { store = one_limit; valid = none; owned = none })
refresh-Takes_example =
    refresh-Takes keys (holder 0) 500 5 (omega arith) 1
      (record { store = one_limit; valid = none; owned = none }) 0 limit_stored (omega arith)
      one_limit-IsFree
