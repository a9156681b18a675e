-- ===== src/Redis/Lease.antt =====
-- src/redis_admission/lease.rs: the participation of a gateway, by a slot that it holds on the writer.
-- Durations and times are milliseconds; a `usize` has 64 bits.
pub mod Configuration
pub mod Safety
pub mod World
pub mod Invariant
pub mod Preservation
pub mod Turns
pub mod Steps
pub mod Participation
pub mod Starting
pub mod Progress
pub mod Schedule
pub mod Renewal
pub mod Timing
use Prim.Native.String
use http_gateway.Prelude.{
  ℕ, zero, suc, ◌+◌, ◌-◌, ◌*◌, ◌/◌, ◌%◌, ◌^◌, String, Bool, true, false, not, ◌&&◌, ◌||◌, Option,
  none, some, Result, ok, err, List, [], ◌∷◌, ◌++◌, leb, ltb, ◌==◌, if◌then◌else◌, is_empty_str,
  trim,
}
use http_gateway.External.Redis.{Command, get, set_nx_px, eval, complete, renew, Reply}
use http_gateway.Admission.{AdmissionError}
use http_gateway.Effects.{Prog, ret, call}
use http_gateway.Redis.Replies.{show, hex, unexpected, read_number, read_reserved, read_transition}

-- What a refresh waits for, and what it changes: the clock, a random number, a command to the writer;
-- the deadline of the local validity (`publish`, `clear`), and the slot that may be owned, which both
-- stay as they are when the refresh is cancelled.
pub data LeaseCall : Type 0 where
  clock draw clear : LeaseCall
  publish : (deadline : ℕ) → LeaseCall
  set_owned : Option ℕ → LeaseCall
  send : Command → LeaseCall

abbrev pub LeaseAnswer : LeaseCall → Type 0
LeaseAnswer clock = ℕ
LeaseAnswer draw = ℕ
LeaseAnswer clear = Unit {0}
LeaseAnswer (publish deadline) = Unit {0}
LeaseAnswer (set_owned slot) = Unit {0}
LeaseAnswer (send c) = Reply

abbrev pub Refresh : Type 0
Refresh = Prog LeaseAnswer (Result AdmissionError (Unit {0}))

-- The prefix, the token and the time to live of one gateway.
pub record Holder : Type 0 where
  pub prefix : String
  pub token : String
  pub lease_ttl : ℕ

abbrev pub limit_key : Holder → String
limit_key h = String.◌++◌ h.prefix ":max-gateways"

abbrev pub gateway_key : Holder → ℕ → String
gateway_key h slot = String.◌++◌ h.prefix (String.◌++◌ ":gateway:" (show slot))

abbrev pub invalid_limit : AdmissionError
invalid_limit =
    unexpected "Redis max-gateways must be a nonnegative decimal integer that fits usize"

unfoldable pub read_limit : Reply → Result AdmissionError ℕ
unfolding read_number
read_limit r = read_number invalid_limit r

abbrev pub unexpected_participation : String
unexpected_participation = "unexpected Redis participation transition response"

-- The replies of `renew` and of the release.
abbrev pub read_participation : Reply → Result AdmissionError Bool
read_participation r = read_transition unexpected_participation r

-- `count` numbers from `n` on.
unfoldable pub range : ℕ → ℕ → List ℕ
range n zero = []
range n (suc count) = n ∷ range (suc n) count

-- `(first..limit).chain(0..first)`.
unfoldable pub scan_order : ℕ → ℕ → List ℕ
unfolding range
scan_order first limit = range first (limit - first) ++ range 0 first

module _ (h : Holder) where
  abbrev pub after_reserved : ℕ → Refresh → Result AdmissionError Bool → Refresh
  after_reserved started rest (err e) = ret (err e)
  after_reserved started rest (ok true) = call (publish (started + h.lease_ttl)) (λ _. ret (ok tt))
  after_reserved started rest (ok false) = call (set_owned none) (λ _. rest)

  -- The loop over the slots. The owner is set before the command is sent.
  unfoldable pub scan : List ℕ → Refresh
  scan [] = ret (ok tt)
  scan (slot ∷ slots) =
      let rest = scan slots in
      call clock λ started. call (set_owned (some slot)) λ _.
        call (send (set_nx_px (gateway_key h slot) h.token h.lease_ttl))
          λ r. after_reserved started rest (read_reserved r)

  abbrev pub after_renewed : ℕ → Result AdmissionError Bool → Refresh
  after_renewed started (err e) = ret (err e)
  after_renewed started (ok true) = call (publish (started + h.lease_ttl)) (λ _. ret (ok tt))
  after_renewed started (ok false) = call clear λ _. call (set_owned none) (λ _. ret (ok tt))

  abbrev pub keep : ℕ → Option ℕ → Refresh
  keep limit (some slot) = call clock λ started.
      call (send (eval renew (gateway_key h slot) h.token (some h.lease_ttl)))
        λ r. after_renewed started (read_participation r)
  keep limit none = call draw (λ random. scan (scan_order (random % limit) limit))

  -- What follows the release: the limit is zero, the slot is renewed, or one is looked for.
  abbrev pub settle : ℕ → Option ℕ → Refresh
  settle limit owned =
      let rest = keep limit owned in if limit == 0 then call clear (λ _. ret (ok tt)) else rest

  abbrev pub after_release : ℕ → Result AdmissionError Bool → Refresh
  after_release limit (err e) = ret (err e)
  after_release limit (ok b) = call (set_owned none) (λ _. settle limit none)

  -- A slot that the limit does not cover any more is given up, after the validity.
  abbrev pub release : ℕ → Option ℕ → Refresh
  release limit none = settle limit none
  release limit (some slot) =
      let kept = settle limit (some slot) in
      if leb limit slot
      then (call clear λ _.
          call (send (eval complete (gateway_key h slot) h.token none))
            λ r. after_release limit (read_participation r))
      else kept

  abbrev pub after_limit : Option ℕ → Result AdmissionError ℕ → Refresh
  after_limit owned (err e) = ret (err e)
  after_limit owned (ok limit) = release limit owned

  unfoldable pub refresh : Option ℕ → Refresh
  unfolding scan scan_order
  refresh owned = call (send (get (limit_key h))) (λ r. after_limit owned (read_limit r))

-- `is_valid` at a time.
abbrev pub is_valid : ℕ → Option ℕ → Bool
is_valid now none = false
is_valid now (some deadline) = ltb now deadline
