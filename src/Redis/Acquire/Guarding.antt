-- ===== src/Redis/Acquire/Guarding.antt =====
-- How an acquisition of src/redis_admission.rs uses the guard of the recorder lookup.
use http_gateway.Prelude.{
  ℕ, String, ◌≡◌, refl, inl, inr, Bool, true, false, Option, none, some, Result, ok, err, leb,
  str_eq, Bool-cases,
}
use http_gateway.External.Http.{Http}
use http_gateway.External.Router.{Router}
use http_gateway.External.Json.{Json}
use http_gateway.Messages.{AdmissionTicket}
use http_gateway.Admission.{AdmissionError}
use http_gateway.Effects.{Prog, ret, call, Event, Calls}
use http_gateway.Effects.Monitors.{Follows, Follows->>=}
use http_gateway.Redis.Discovery.{LookupUnavailable, cooling_down, in_progress}
use http_gateway.Redis.Acquire.{
  Provider, Quota, slot_key, Ask, Told, participating, look_up, snapshot, draw, close, send,
  Outcome, after_count, count_case, after_reserve, reserve, take_slot, within, after_lookup, held,
  guarded, acquire_by, acquire, acquire_eligible, acquire_request_by, try_acquire,
  try_acquire_request,
}

module _ (H : Http) (R : Router) (J : Json) where
  -- `held` says whether the acquisition holds the guard.
  abbrev pub Requires : Bool → Event (Told H R J) → Type 0
  Requires held (participating, b) = Unit {0}
  Requires held (look_up, r) = held ≡ false
  Requires held (snapshot, s) = held ≡ false
  Requires held (draw, n) = held ≡ true
  Requires held (close available, u) = held ≡ true
  Requires held (send c, r) = held ≡ true

  abbrev pub advance : Bool → Event (Told H R J) → Bool
  advance held (look_up, ok u) = true
  advance held (look_up, err e) = held
  advance held (close available, u) = false
  advance held (participating, b) = held
  advance held (snapshot, s) = held
  advance held (draw, n) = held
  advance held (send c, r) = held

  abbrev IsQuiet : Ask H R J → Type 0
  IsQuiet participating = Unit {0}
  IsQuiet draw = Unit {0}
  IsQuiet (send c) = Unit {0}
  IsQuiet _ = ⊥

  IsQuiet-Follows :
      {A : Type 0} (m : Prog (Told H R J) A)
      → Calls IsQuiet m
      → Follows Requires advance (λ s a. s ≡ true) true m
  IsQuiet-Follows (ret a) q = refl
  IsQuiet-Follows (call participating k) q = λ b. (tt, IsQuiet-Follows (k b) (q.1 b))
  IsQuiet-Follows (call draw k) q = λ n. (refl, IsQuiet-Follows (k n) (q.1 n))
  IsQuiet-Follows (call (send c) k) q = λ r. (refl, IsQuiet-Follows (k r) (q.1 r))
  IsQuiet-Follows (call look_up k) q = absurd q.0
  IsQuiet-Follows (call snapshot k) q = absurd q.0
  IsQuiet-Follows (call (close available) k) q = absurd q.0

  module _ (p : Provider) (scope : String) where
    count_case-IsQuiet :
        (quota : Option Quota) (ticket : AdmissionTicket H)
        → Calls IsQuiet (count_case H R J p quota ticket)
    count_case-IsQuiet none ticket = (tt, λ b. tt)
    count_case-IsQuiet (some (name, limit)) ticket = (tt, λ r. counted _)
      where
        counted :
            (o : Result AdmissionError (Unit {0})) → Calls IsQuiet (after_count H R J ticket o)
        counted (err e) = tt
        counted (ok u) = (tt, λ b. tt)

    after_reserve-IsQuiet :
        (quota : Option Quota) (ticket : AdmissionTicket H) (o : Result AdmissionError Bool)
        → Calls IsQuiet (after_reserve H R J p quota ticket o)
    after_reserve-IsQuiet quota ticket (err e) = tt
    after_reserve-IsQuiet quota ticket (ok false) = tt
    after_reserve-IsQuiet quota ticket (ok true) = count_case-IsQuiet quota ticket

    reserve-IsQuiet :
        (quota : Option Quota) (random : ℕ × ℕ) (o : Result AdmissionError (AdmissionTicket H))
        → Calls IsQuiet (reserve H R J p scope quota random o)
    reserve-IsQuiet quota random (err e) = tt
    reserve-IsQuiet quota random (ok ticket) = (tt, λ r. after_reserve-IsQuiet quota ticket _)

    take_slot-IsQuiet :
        (quota : Option Quota) (u : H.Uri) → Calls IsQuiet (take_slot H R J p scope quota u)
    unfolding take_slot
    take_slot-IsQuiet quota u = (tt, λ random. reserve-IsQuiet quota random _)

    within-IsQuiet :
        (name : String) (limit : ℕ) (u : H.Uri) (o : Result AdmissionError ℕ)
        → Calls IsQuiet (within H R J p scope (name, limit) u o)
    within-IsQuiet name limit u (err e) = tt
    within-IsQuiet name limit u (ok n) = elim (Bool-cases (leb limit n)) [
      | inl full ↦ rw (full, within) tt
      | inr room ↦ rw (room, within) (take_slot-IsQuiet (some (name, limit)) u)
    ]

    after_lookup-IsQuiet :
        (quota : Option Quota) (o : Result AdmissionError (Option H.Uri))
        → Calls IsQuiet (after_lookup H R J p scope quota o)
    after_lookup-IsQuiet quota (err e) = tt
    after_lookup-IsQuiet quota (ok none) = tt
    after_lookup-IsQuiet none (ok (some u)) = take_slot-IsQuiet none u
    after_lookup-IsQuiet (some (name, limit)) (ok (some u)) =
        (tt, λ c. within-IsQuiet name limit u _)

    held-IsQuiet : (quota : Option Quota) → Calls IsQuiet (held H R J p scope quota)
    unfolding held
    held-IsQuiet quota = (tt, λ r. after_lookup-IsQuiet quota _)

    abbrev pub Returns : Prog (Told H R J) (Outcome H R J) → Type 0
    Returns m = Follows Requires advance (λ s a. s ≡ false) false m

    guarded-Returns :
        (quota : Option Quota) (found : Result LookupUnavailable (Unit {0}))
        → Follows Requires advance
            (λ s a. s ≡ false)
            (advance false (look_up, found))
            (guarded H R J p scope quota found)
    guarded-Returns quota (err cooling_down) = refl
    guarded-Returns quota (err in_progress) = refl
    guarded-Returns quota (ok u) =
        Follows->>= Requires advance (λ s a. s ≡ true) (λ s a. s ≡ false) true
          (held H R J p scope quota) _
          (IsQuiet-Follows (held H R J p scope quota) (held-IsQuiet quota))
          (λ s d taken. λ closed. (taken, refl))

    acquire_by-Returns :
        (quota : Option Quota) (joined : Bool) → Returns (acquire_by H R J p scope quota joined)
    acquire_by-Returns quota false = refl
    acquire_by-Returns quota true =
        elim (Bool-cases (str_eq (slot_key p scope) p.recorder_url_key)) [
          | inl same ↦ rw (same, acquire_by) refl
          | inr other ↦ rw (other, acquire_by) (λ found. (refl, guarded-Returns quota found))
        ]

    acquire-Returns : (quota : Option Quota) → Returns (acquire H R J p scope quota)
    unfolding acquire
    acquire-Returns quota = λ joined. (tt, acquire_by-Returns quota joined)

    -- Whatever is answered, an acquisition takes the guard at most once, sends commands and draws numbers
    -- only while it holds it, and has dropped it when it ends.
    pub try_acquire-Returns : Returns (try_acquire H R J p scope)
    unfolding try_acquire
    try_acquire-Returns = acquire-Returns none

    acquire_eligible-Returns :
        (q : Option (Option Quota)) → Returns (acquire_eligible H R J p scope q)
    acquire_eligible-Returns none = refl
    acquire_eligible-Returns (some quota) = acquire-Returns quota

    acquire_request_by-Returns :
        (path : String) (joined : Bool) → Returns (acquire_request_by H R J p scope path joined)
    acquire_request_by-Returns path false = refl
    acquire_request_by-Returns path true = λ policy. (refl, acquire_eligible-Returns _)

    -- So does a request's, whose policy is read before.
    pub try_acquire_request-Returns :
        (path : String) → Returns (try_acquire_request H R J p scope path)
    unfolding try_acquire_request
    try_acquire_request-Returns path = λ joined. (tt, acquire_request_by-Returns path joined)
