-- ===== src/Redis/Acquire.antt =====
-- The acquisition of the shared slot in src/redis_admission.rs.
pub mod Slot
pub mod Course
pub mod Requests
pub mod Tickets
pub mod Guarding
pub mod Granting
pub mod Taking
use Prim.Native.String
use http_gateway.Prelude.{
  ℕ, zero, suc, ◌+◌, ◌-◌, ◌*◌, ◌/◌, ◌%◌, ◌^◌, String, Bool, true, false, not, ◌&&◌, Option, none,
  some, Result, ok, err, List, [], ◌∷◌, all, is_empty, leb, str_eq, if◌then◌else◌, get_elem?,
}
use http_gateway.Prelude.Results.{◌>>=◌ as and_then}
use http_gateway.External.Http.{Http}
use http_gateway.External.Router.{Router}
use http_gateway.External.Json.{Json}
use http_gateway.External.Redis.{
  Command, get, hget, set_nx_px, hincrby, Value, nil, okay, int, bulk_string, simple_string, Reply,
  reply, failed,
}
use http_gateway.Messages.{AdmissionTicket}
use http_gateway.Admission.{
  AdmissionError, AcquireOutcome, acquired, busy, no_recorder, not_participant, not_eligible,
  quota_exhausted, backend, client, invalid_recorder_url, participation_lost, new_ticket,
  with_origin,
}
use http_gateway.Effects.{Prog, ret, call, ◌>>=◌}
use http_gateway.Redis.Discovery.{LookupUnavailable, cooling_down, in_progress}
use http_gateway.Redis.Policy.{CompiledPolicy, api, invalid}
use http_gateway.Redis.Registration.{origin}
use http_gateway.Redis.Replies.{hex, read_number, read_reserved}

-- The fields of `RedisAdmissionProvider` that do not change, with `counts_key` of its policy store.
pub record Provider : Type 0 where
  pub key_prefix : String
  pub recorder_url_key : String
  pub counts_key : String
  pub ttl_ms : ℕ

-- The name and the limit of an API.
abbrev pub Quota : Type 0
Quota = String × ℕ

abbrev pub slot_key : Provider → String → String
slot_key p scope = String.◌++◌ p.key_prefix (String.◌++◌ ":inflight:" scope)

-- The token of two random numbers of 128 bits.
abbrev pub token_of : ℕ × ℕ → String
token_of (a, b) = String.◌++◌ (hex 32 a) (hex 32 b)

abbrev pub invalid_count : AdmissionError
invalid_count = invalid "API count must be a nonnegative integer"

unfoldable pub read_count : Reply → Result AdmissionError ℕ
unfolding read_number
read_count r = read_number invalid_count r

-- The reply to the increment.
unfoldable pub read_counted : Reply → Result AdmissionError (Unit {0})
read_counted (reply (int (suc n))) = ok tt
read_counted failed = err (backend client)
read_counted (reply v) = err (invalid "unexpected API count increment response")

module _ (H : Http) (R : Router) (J : Json) where
  -- What an acquisition waits for, and the state that it shares: the lease of the gateway, the
  -- guard of the lookup (`try_lookup` and the drop of the guard, with the flag that `available`
  -- sets), the policy that is loaded, the writer, and random numbers.
  pub data Ask : Type 0 where
    participating look_up snapshot draw : Ask
    close : Bool → Ask
    send : Command → Ask

  abbrev pub Told : Ask → Type 0
  Told participating = Bool
  Told look_up = Result LookupUnavailable (Unit {0})
  Told snapshot = Option (CompiledPolicy H R)
  Told draw = ℕ × ℕ
  Told (close available) = Unit {0}
  Told (send c) = Reply

  abbrev pub Outcome : Type 0
  Outcome = Result AdmissionError (AcquireOutcome H)

  unfoldable pub read_origin : Reply → Result AdmissionError (Option H.Uri)
  read_origin (reply nil) = ok none
  read_origin (reply (bulk_string bytes)) = and_then (origin H J bytes) (λ u. ok (some u))
  read_origin failed = err (backend client)
  read_origin (reply v) = err invalid_recorder_url

  -- The part under the guard gives the outcome and the flag with which the guard is dropped.
  abbrev pub Guarded : Type 0
  Guarded = Prog Told (Bool × Outcome)

  abbrev pub fail : AdmissionError → Guarded
  fail e = ret (false, err e)

  abbrev pub confirm : AdmissionTicket H → Bool → Bool × Outcome
  confirm ticket p = if p then (true, ok (acquired ticket)) else (false, err participation_lost)

  abbrev pub check_again : AdmissionTicket H → Guarded
  check_again ticket = call participating (λ p. ret (confirm ticket p))

  abbrev pub after_count : AdmissionTicket H → Result AdmissionError (Unit {0}) → Guarded
  after_count ticket (err e) = fail e
  after_count ticket (ok u) = check_again ticket

  abbrev pub count_case : Provider → Option Quota → AdmissionTicket H → Guarded
  count_case p none ticket = check_again ticket
  count_case p (some (name, limit)) ticket =
      call (send (hincrby p.counts_key name 1)) (λ r. after_count ticket (read_counted r))

  abbrev pub after_reserve :
      Provider → Option Quota → AdmissionTicket H → Result AdmissionError Bool → Guarded
  after_reserve p quota ticket (err e) = fail e
  after_reserve p quota ticket (ok false) = ret (true, ok busy)
  after_reserve p quota ticket (ok true) = count_case p quota ticket

  -- `AdmissionTicket::new(scope, &token)?.with_origin(origin)?`.
  abbrev pub slot_ticket : String → H.Uri → ℕ × ℕ → Result AdmissionError (AdmissionTicket H)
  slot_ticket scope u random =
      and_then (new_ticket H scope (token_of random)) (λ ticket. with_origin H ticket u)

  -- The value that is set is the token's text, which `ticket.token()` gives back.
  abbrev pub reserve :
      Provider → String → Option Quota → ℕ × ℕ → Result AdmissionError (AdmissionTicket H) → Guarded
  reserve p scope quota random (err e) = fail e
  reserve p scope quota random (ok ticket) =
      call (send (set_nx_px (slot_key p scope) (token_of random) p.ttl_ms))
        (λ r. after_reserve p quota ticket (read_reserved r))

  unfoldable pub take_slot : Provider → String → Option Quota → H.Uri → Guarded
  take_slot p scope quota u =
      call draw (λ random. reserve p scope quota random (slot_ticket scope u random))

  abbrev pub within : Provider → String → Quota → H.Uri → Result AdmissionError ℕ → Guarded
  within p scope quota u (err e) = fail e
  within p scope (name, limit) u (ok n) =
      let slot = take_slot p scope (some (name, limit)) u in
      if leb limit n then ret (true, ok quota_exhausted) else slot

  abbrev pub check_quota : Provider → String → Option Quota → H.Uri → Guarded
  check_quota p scope none u = take_slot p scope none u
  check_quota p scope (some (name, limit)) u =
      call (send (hget p.counts_key name)) (λ r. within p scope (name, limit) u (read_count r))

  abbrev pub after_lookup :
      Provider → String → Option Quota → Result AdmissionError (Option H.Uri) → Guarded
  after_lookup p scope quota (err e) = fail e
  after_lookup p scope quota (ok none) = ret (false, ok no_recorder)
  after_lookup p scope quota (ok (some u)) = check_quota p scope quota u

  -- What runs while the guard is held.
  unfoldable pub held : Provider → String → Option Quota → Guarded
  unfolding take_slot
  held p scope quota =
      call (send (get p.recorder_url_key)) (λ r. after_lookup p scope quota (read_origin r))

  abbrev pub guarded :
      Provider → String → Option Quota → Result LookupUnavailable (Unit {0}) → Prog Told Outcome
  guarded p scope quota (err cooling_down) = ret (ok no_recorder)
  guarded p scope quota (err in_progress) = ret (ok busy)
  guarded p scope quota (ok u) = held p scope quota >>= λ d. call (close d.0) (λ _. ret d.1)

  abbrev pub acquire_by : Provider → String → Option Quota → Bool → Prog Told Outcome
  acquire_by p scope quota false = ret (ok not_participant)
  acquire_by p scope quota true =
      if str_eq (slot_key p scope) p.recorder_url_key
      then ret (err (invalid "recorder URL key conflicts with slot key"))
      else call look_up (guarded p scope quota)

  unfoldable pub acquire : Provider → String → Option Quota → Prog Told Outcome
  unfolding held
  acquire p scope quota = call participating (acquire_by p scope quota)

  unfoldable pub try_acquire : Provider → String → Prog Told Outcome
  unfolding acquire
  try_acquire p scope = acquire p scope none

  abbrev pub quota_of : Option ℕ → String → Option Quota
  quota_of none name = none
  quota_of (some limit) name = some (name, limit)

  abbrev pub request_quota : Option (CompiledPolicy H R) → String → Option (Option Quota)
  request_quota none path = none
  request_quota (some policy) path = elim (api H R policy path) [
    | none ↦ none
    | some name ↦ some (quota_of policy.case_limit name)
  ]

  abbrev pub acquire_eligible : Provider → String → Option (Option Quota) → Prog Told Outcome
  acquire_eligible p scope none = ret (ok not_eligible)
  acquire_eligible p scope (some quota) = acquire p scope quota

  abbrev pub acquire_request_by : Provider → String → String → Bool → Prog Told Outcome
  acquire_request_by p scope path false = ret (ok not_participant)
  acquire_request_by p scope path true =
      call snapshot (λ policy. acquire_eligible p scope (request_quota policy path))

  unfoldable pub try_acquire_request : Provider → String → String → Prog Told Outcome
  unfolding acquire
  try_acquire_request p scope path = call participating (acquire_request_by p scope path)
