-- ===== src/Redis/Acquire/Slot.antt =====
-- The reservation of the slot in src/redis_admission.rs, once the recorder's origin is known.
use http_gateway.Prelude.{
  ℕ, String, ◌≡◌, refl, ap, Bool, true, false, Option, none, some, Result, ok, err, List, [], ◌∷◌,
  ◌++◌, All,
}
use http_gateway.External.Http.{Http}
use http_gateway.External.Router.{Router}
use http_gateway.External.Json.{Json}
use http_gateway.External.Redis.{set_nx_px, hincrby, Reply}
use http_gateway.Messages.{AdmissionTicket}
use http_gateway.Admission.{AdmissionError, acquired, busy, participation_lost}
use http_gateway.Redis.Replies.{read_reserved}
use http_gateway.Effects.{Event, Always}
use http_gateway.Redis.Acquire.{
  Provider, Quota, slot_key, token_of, read_counted, Ask, Told, participating, draw, send, Outcome,
  confirm, after_count, count_case, after_reserve, slot_ticket, reserve, take_slot,
}

module _ (H : Http) (R : Router) (J : Json) (p : Provider) (scope : String) where
  abbrev pub Log : Type 0
  Log = List (Event (Told H R J))

  -- The command that reserves the slot.
  abbrev pub set_slot : ℕ × ℕ → Ask H R J
  set_slot random = send (set_nx_px (slot_key p scope) (token_of random) p.ttl_ms)

  -- The events after the slot is reserved, by the quota: the count of the API goes up by one, and
  -- the gateway still participates.
  abbrev pub Confirmed : Option Quota → Log → Type 0
  Confirmed none log = log ≡ (participating, true) ∷ []
  Confirmed (some (name, limit)) log =
      (r : Reply) × (read_counted r ≡ ok tt)
      × (log ≡ (send (hincrby p.counts_key name 1), r) ∷ (participating, true) ∷ [])

  -- After the slot is reserved, a failure has left only the count and the check.
  abbrev pub IsConfirming : Option Quota → Ask H R J → Type 0
  IsConfirming none e = e ≡ participating
  IsConfirming (some (name, limit)) (send c) = c ≡ hincrby p.counts_key name 1
  IsConfirming (some (name, limit)) e = e ≡ participating

  -- How the reservation ends for an origin: with a ticket; busy; with no command sent; or with an
  -- error, and then nothing but the reservation and, once it was granted, the count was sent.
  pub data Slot (quota : Option Quota) (u : H.Uri) (log : Log) (d : Bool × Outcome H R J)
      : Type 0 where
    granted :
        (random : ℕ × ℕ) (ticket : AdmissionTicket H) (r : Reply) (rest : Log)
        → slot_ticket H R J scope u random ≡ ok ticket
        → read_reserved r ≡ ok true
        → Confirmed quota rest
        → log ≡ (draw, random) ∷ (set_slot random, r) ∷ rest
        → d ≡ (true, ok (acquired ticket))
        → Slot quota u log d
    taken :
        (random : ℕ × ℕ) (r : Reply)
        → read_reserved r ≡ ok false
        → log ≡ (draw, random) ∷ (set_slot random, r) ∷ []
        → d ≡ (true, ok busy)
        → Slot quota u log d
    unbuilt :
        (random : ℕ × ℕ) (e : AdmissionError)
        → slot_ticket H R J scope u random ≡ err e
        → log ≡ (draw, random) ∷ []
        → d ≡ (false, err e)
        → Slot quota u log d
    refused :
        (random : ℕ × ℕ) (r : Reply) (e : AdmissionError)
        → read_reserved r ≡ err e
        → log ≡ (draw, random) ∷ (set_slot random, r) ∷ []
        → d ≡ (false, err e)
        → Slot quota u log d
    lost :
        (random : ℕ × ℕ) (r : Reply) (e : AdmissionError) (rest : Log)
        → read_reserved r ≡ ok true
        → All (λ ev. IsConfirming quota ev.0) rest
        → log ≡ (draw, random) ∷ (set_slot random, r) ∷ rest
        → d ≡ (false, err e)
        → Slot quota u log d

  confirm-Slot :
      (quota : Option Quota) (u : H.Uri) (random : ℕ × ℕ) (ticket : AdmissionTicket H) (r : Reply)
      (before : Log) (still : Bool)
      → slot_ticket H R J scope u random ≡ ok ticket
      → read_reserved r ≡ ok true
      → (still ≡ true → Confirmed quota (before ++ (participating, still) ∷ []))
      → All (λ ev. IsConfirming quota ev.0) (before ++ (participating, still) ∷ [])
      → Slot quota u
          ((draw, random) ∷ (set_slot random, r) ∷ before ++ (participating, still) ∷ [])
          (confirm H R J ticket still)
  confirm-Slot quota u random ticket r before true made free c steps =
      granted random ticket r _ made free (c refl) refl refl
  confirm-Slot quota u random ticket r before false made free c steps =
      lost random r participation_lost _ free steps refl refl

  after_count-Slot :
      (name : String) (limit : ℕ) (u : H.Uri) (random : ℕ × ℕ) (ticket : AdmissionTicket H)
      (r c : Reply) (o : Result AdmissionError (Unit {0}))
      → slot_ticket H R J scope u random ≡ ok ticket
      → read_reserved r ≡ ok true
      → read_counted c ≡ o
      → Always
          (Slot (some (name, limit)) u)
          ((draw, random) ∷ (set_slot random, r) ∷ (send (hincrby p.counts_key name 1), c) ∷ [])
          (after_count H R J ticket o)
  after_count-Slot name limit u random ticket r c (err e) made free bad =
      lost random r e _ free (refl, tt) refl refl
  after_count-Slot name limit u random ticket r c (ok v) made free good = λ still.
      confirm-Slot (some (name, limit)) u random ticket r
        ((send (hincrby p.counts_key name 1), c) ∷ []) still made free
        (λ yes. (
          c,
          good,
          ap (λ b. (send (hincrby p.counts_key name 1), c) ∷ (participating, b) ∷ []) yes,
        ))
        (refl, (refl, tt))

  count_case-Slot :
      (quota : Option Quota) (u : H.Uri) (random : ℕ × ℕ) (ticket : AdmissionTicket H) (r : Reply)
      → slot_ticket H R J scope u random ≡ ok ticket
      → read_reserved r ≡ ok true
      → Always
          (Slot quota u)
          ((draw, random) ∷ (set_slot random, r) ∷ [])
          (count_case H R J p quota ticket)
  count_case-Slot none u random ticket r made free = λ still.
      confirm-Slot none u random ticket r [] still made free
        (λ yes. ap (λ b. (participating, b) ∷ []) yes) (refl, tt)
  count_case-Slot (some (name, limit)) u random ticket r made free =
      λ c. after_count-Slot name limit u random ticket r c _ made free refl

  after_reserve-Slot :
      (quota : Option Quota) (u : H.Uri) (random : ℕ × ℕ) (ticket : AdmissionTicket H) (r : Reply)
      (o : Result AdmissionError Bool)
      → slot_ticket H R J scope u random ≡ ok ticket
      → read_reserved r ≡ o
      → Always
          (Slot quota u)
          ((draw, random) ∷ (set_slot random, r) ∷ [])
          (after_reserve H R J p quota ticket o)
  after_reserve-Slot quota u random ticket r (err e) made bad = refused random r e bad refl refl
  after_reserve-Slot quota u random ticket r (ok false) made full = taken random r full refl refl
  after_reserve-Slot quota u random ticket r (ok true) made free =
      count_case-Slot quota u random ticket r made free

  reserve-Slot :
      (quota : Option Quota) (u : H.Uri) (random : ℕ × ℕ)
      (o : Result AdmissionError (AdmissionTicket H))
      → slot_ticket H R J scope u random ≡ o
      → Always (Slot quota u) ((draw, random) ∷ []) (reserve H R J p scope quota random o)
  reserve-Slot quota u random (err e) bad = unbuilt random e bad refl refl
  reserve-Slot quota u random (ok ticket) made =
      λ r. after_reserve-Slot quota u random ticket r _ made refl

  pub take_slot-Slot :
      (quota : Option Quota) (u : H.Uri)
      → Always (Slot quota u) [] (take_slot H R J p scope quota u)
  unfolding take_slot
  take_slot-Slot quota u = λ random. reserve-Slot quota u random _ refl
