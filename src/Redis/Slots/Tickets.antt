-- ===== src/Redis/Slots/Tickets.antt =====
-- Every ticket of src/redis_admission.rs was granted by the writer.
use http_gateway.Prelude.{
  ℕ, String, ◌≡◌, refl, subst, true, Option, none, some, ok, err, List, [], ◌∷◌, ◌++◌, All,
}
use http_gateway.External.Http.{Http}
use http_gateway.External.Router.{Router}
use http_gateway.External.Json.{Json}
use http_gateway.External.Redis.{Command, get, hget, set_nx_px, hincrby, eval, failed, Writer}
use http_gateway.Messages.{AdmissionTicket}
use http_gateway.Admission.{
  acquired, busy, no_recorder, not_participant, not_eligible, quota_exhausted, ticket_token,
}
use http_gateway.Effects.{Event, Always}
use http_gateway.Redis.Replies.{read_reserved}
use http_gateway.Redis.Acquire.{
  Provider, Quota, slot_key, token_of, Ask, Told, participating, look_up, snapshot, draw, close,
  send, Outcome,
}
use http_gateway.Redis.Acquire.Tickets.{ticket_token-slot_ticket}
use http_gateway.Redis.Acquire.Granting.{
  Granted, GrantedFor, Grants, try_acquire-Grants, try_acquire_request-Grants,
}
use http_gateway.Redis.Slots.{Grant, Log, IsLocal, note, program}
use http_gateway.Redis.Slots.Grants.{IsGranted, Grows}

module _ (H : Http) (R : Router) (J : Json) where
  -- A reply that says that a key is reserved stands for a grant.
  abbrev pub IsRecorded : List Grant → Event (Told H R J) → Type 0
  IsRecorded gs (send (set_nx_px key value ttl), r) =
      read_reserved r ≡ ok true → IsGranted key value gs
  IsRecorded gs _ = Unit {0}

  abbrev pub AreRecorded : List Grant → Log H R J → Type 0
  AreRecorded gs log = All (IsRecorded gs) log

  pub IsRecorded-Grows :
      (gs gs' : List Grant) (ev : Event (Told H R J))
      → Grows gs gs'
      → IsRecorded gs ev
      → IsRecorded gs' ev
  IsRecorded-Grows gs gs' (send (set_nx_px key value ttl), r) grows h = λ e. grows key value (h e)
  IsRecorded-Grows gs gs' (send (get key), r) grows h = tt
  IsRecorded-Grows gs gs' (send (hget key field), r) grows h = tt
  IsRecorded-Grows gs gs' (send (hincrby key field n), r) grows h = tt
  IsRecorded-Grows gs gs' (send (eval script key token ttl), r) grows h = tt
  IsRecorded-Grows gs gs' (participating, b) grows h = tt
  IsRecorded-Grows gs gs' (look_up, r) grows h = tt
  IsRecorded-Grows gs gs' (snapshot, s) grows h = tt
  IsRecorded-Grows gs gs' (draw, n) grows h = tt
  IsRecorded-Grows gs gs' (close available, u) grows h = tt

  pub AreRecorded-Grows :
      (gs gs' : List Grant) (log : Log H R J)
      → Grows gs gs'
      → AreRecorded gs log
      → AreRecorded gs' log
  AreRecorded-Grows gs gs' [] grows h = tt
  AreRecorded-Grows gs gs' (ev ∷ log) grows h =
      (IsRecorded-Grows gs gs' ev grows h.0, AreRecorded-Grows gs gs' log grows h.1)

  pub AreRecorded-append :
      (gs : List Grant) (log : Log H R J) (ev : Event (Told H R J))
      → AreRecorded gs log
      → IsRecorded gs ev
      → AreRecorded gs (log ++ ev ∷ [])
  AreRecorded-append gs [] ev h r = (r, tt)
  AreRecorded-append gs (x ∷ log) ev h r = (h.0, AreRecorded-append gs log ev h.1 r)

  pub local-IsRecorded :
      (gs : List Grant) (e : Ask H R J) (r : Told H R J e) → IsLocal H R J e → IsRecorded gs (e, r)
  local-IsRecorded gs participating r l = tt
  local-IsRecorded gs look_up r l = tt
  local-IsRecorded gs snapshot r l = tt
  local-IsRecorded gs draw r l = tt
  local-IsRecorded gs (close available) r l = tt
  local-IsRecorded gs (send c) r l = absurd l

  pub failed-IsRecorded : (gs : List Grant) (c : Command) → IsRecorded gs (send c, failed)
  unfolding read_reserved
  failed-IsRecorded gs (set_nx_px key value ttl) = λ e. cc
  failed-IsRecorded gs (get key) = tt
  failed-IsRecorded gs (hget key field) = tt
  failed-IsRecorded gs (hincrby key field n) = tt
  failed-IsRecorded gs (eval script key token ttl) = tt

  suffix : (gs : List Grant) (xs ys : Log H R J) → AreRecorded gs (xs ++ ys) → AreRecorded gs ys
  suffix gs [] ys h = h
  suffix gs (x ∷ xs) ys h = suffix gs xs ys h.1

  prefix : (gs : List Grant) (xs ys : Log H R J) → AreRecorded gs (xs ++ ys) → AreRecorded gs xs
  prefix gs [] ys h = tt
  prefix gs (x ∷ xs) ys h = (h.0, prefix gs xs ys h.1)

  module _ (W : Writer) (p : Provider) where
    -- The ticket's token was granted on the slot of its scope.
    abbrev pub IsGiven : List Grant → String × AdmissionTicket H → Type 0
    IsGiven gs (scope, t) =
        (random : ℕ × ℕ) × (ticket_token H t ≡ some (token_of random))
        × IsGranted (slot_key p scope) (token_of random) gs

    Granted-IsGiven :
        (gs : List Grant) (scope : String) (quota : Option Quota) (t : AdmissionTicket H)
        (log : Log H R J)
        → Granted H R J p scope quota t log
        → AreRecorded gs log
        → IsGiven gs (scope, t)
    Granted-IsGiven gs scope quota t log g h =
        let all = subst (AreRecorded gs) g.order h in
        let inner = prefix gs _ ((close true, tt) ∷ []) all.1.1 in
        let slot = suffix gs g.reads _ inner in
        (
          g.random,
          ticket_token-slot_ticket H R J p scope g.origin g.random t g.made,
          slot.1.0 g.was_set,
        )

    GrantedFor-IsGiven :
        (gs : List Grant) (scope : String) (path : Option String) (t : AdmissionTicket H)
        (log : Log H R J)
        → GrantedFor H R J p scope path t log
        → AreRecorded gs log
        → IsGiven gs (scope, t)
    GrantedFor-IsGiven gs scope none t log g h = Granted-IsGiven gs scope none t log g h
    GrantedFor-IsGiven gs scope (some path) t log (policy, quota, rest, counted, g, e) h =
        Granted-IsGiven gs scope quota t rest g (subst (AreRecorded gs) e h).1.1

    abbrev pub AreGiven : List Grant → List (String × AdmissionTicket H) → Type 0
    AreGiven gs given = All (IsGiven gs) given

    pub AreGiven-Grows :
        (gs gs' : List Grant) (given : List (String × AdmissionTicket H))
        → Grows gs gs'
        → AreGiven gs given
        → AreGiven gs' given
    AreGiven-Grows gs gs' [] grows h = tt
    AreGiven-Grows gs gs' ((scope, t) ∷ given) grows ((random, text, granted), rest) = (
      (random, text, grows (slot_key p scope) (token_of random) granted),
      AreGiven-Grows gs gs' given grows rest,
    )

    pub noted-AreGiven :
        (gs : List Grant) (scope : String) (path : Option String) (log : Log H R J)
        (o : Outcome H R J) (given : List (String × AdmissionTicket H))
        → Grants H R J p scope path log o
        → AreRecorded gs log
        → AreGiven gs given
        → AreGiven gs (note H R J scope o given)
    noted-AreGiven gs scope path log (ok (acquired t)) given g h rest =
        (GrantedFor-IsGiven gs scope path t log (g t refl) h, rest)
    noted-AreGiven gs scope path log (ok busy) given g h rest = rest
    noted-AreGiven gs scope path log (ok no_recorder) given g h rest = rest
    noted-AreGiven gs scope path log (ok not_participant) given g h rest = rest
    noted-AreGiven gs scope path log (ok not_eligible) given g h rest = rest
    noted-AreGiven gs scope path log (ok quota_exhausted) given g h rest = rest
    noted-AreGiven gs scope path log (err e) given g h rest = rest

    pub program-Grants :
        (scope : String) (path : Option String)
        → Always (Grants H R J p scope path) [] (program H R J W p scope path)
    program-Grants scope none = try_acquire-Grants H R J p scope
    program-Grants scope (some path) = try_acquire_request-Grants H R J p scope path
