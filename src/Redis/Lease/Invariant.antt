-- ===== src/Redis/Lease/Invariant.antt =====
-- What stays true of every gateway while they all run: src/redis_admission/lease.rs.
use http_gateway.Prelude.{
  ℕ, ◌+◌, ◌≤◌, ◌<◌, String, ◌≡◌, ◌≢◌, sym, ap, subst, ◌∙◌, true, Option, none, some, ok, arith,
}
use http_gateway.External.Redis.{Command, eval, Script, complete, renew, Value, reply, Writer}
use http_gateway.Effects.{call}
use http_gateway.Redis.Replies.{read_reserved}
use http_gateway.Redis.Scripts.{run_set, run_script}
use http_gateway.Redis.Scripts.Ownership.{
  HeldUntil, IsTime, run_set-HeldUntil, run_set-granted, run_script-HeldUntil, run_renew-HeldUntil,
  run_renew-granted,
}
use http_gateway.Redis.Lease.{
  send, Holder, gateway_key, unexpected_participation, read_participation,
}
use http_gateway.Redis.Lease.Safety.{MaySend, Grants, IsPossible, IsSafe}
use http_gateway.Redis.Lease.World.{
  Control, idle, running, waiting, Instance, Runs, reads, sets, evals,
}

module _ (W : Writer) (most : ℕ) where
  -- Until the deadline the writer holds a slot of the gateway below the greatest limit.
  abbrev pub Holds : Holder → W.Store → ℕ → ℕ → Type 0
  Holds h s now deadline =
      now < deadline
      → (slot : ℕ) × (slot < most) × HeldUntil W s now (gateway_key h slot) h.token deadline

  -- Where the refresh stands.
  abbrev pub Fits : Holder → W.Store → ℕ → Instance → Control → Type 0
  Fits h s now g idle = Unit {0}
  Fits h s now g (running p) =
      (grant : Option ℕ) × (read : ℕ) × IsSafe h most grant g.valid read p
      × (read ≤ now)
      × ((deadline : ℕ)
          → grant ≡ some deadline
          → (deadline ≤ now + h.lease_ttl)
            × Holds h s now deadline
            × ((c : Command) → g.flight ≢ some (c, none)))
  Fits h s now g (waiting c k) =
      (read : ℕ) × IsSafe h most none g.valid read (call (send c) k)
      × (read ≤ now)
      × ((v : Value)
          → g.flight ≡ some (c, some v)
          → IsPossible h most c (reply v)
            × (Grants h most c (reply v) → Holds h s now (read + h.lease_ttl)))

  pub record IsGood (h : Holder) (s : W.Store) (now : ℕ) (g : Instance) : Type 0 where
    pub bounded : (deadline : ℕ) → g.valid ≡ some deadline → deadline ≤ now + h.lease_ttl
    pub held : (deadline : ℕ) → g.valid ≡ some deadline → Holds h s now deadline
    pub allowed : (c : Command) → g.flight ≡ some (c, none) → MaySend h most g.valid c
    pub fits : Fits h s now g g.control

  pub Holds-later :
      (h : Holder) (s : W.Store) (now later deadline : ℕ)
      → now ≤ later
      → Holds h s now deadline
      → Holds h s later deadline
  Holds-later h s now later deadline le held before =
      let (slot, below, (end, found, least)) = held (omega arith) in
      (
        slot,
        below,
        (
          end,
          W.read-later s now later (gateway_key h slot) h.token end found le (omega arith),
          least,
        ),
      )

  moved :
      {v : Value} {s' : W.Store} (run : Value × W.Store) (now : ℕ) (key token : String) (least : ℕ)
      → (v, s') ≡ run
      → HeldUntil W run.1 now key token least
      → HeldUntil W s' now key token least
  moved run now key token least e held =
      subst (λ x. HeldUntil W x now key token least) (sym (ap (λ (x : Value × W.Store). x.1) e))
        held

  module _ (s : W.Store) (now : ℕ) where
    -- A command of another gateway leaves every hold.
    pub Runs_other-Holds :
        {v : Value} {s' : W.Store} (h other : Holder) (deadline : ℕ) (valid : Option ℕ)
        (c : Command)
        → other.token ≢ h.token
        → MaySend other most valid c
        → Runs W most other s now c v s'
        → Holds h s now deadline
        → Holds h s' now deadline
    Runs_other-Holds {v} {s'} h other deadline valid _ differ may (reads key possible e) held =
        subst (λ x. Holds h x now deadline) (sym e) held
    Runs_other-Holds {v} {s'} h other deadline valid _ differ may (sets key value ttl e) held =
        λ before.
          let (slot, below, stays) = held before in
          (
            slot,
            below,
            moved (run_set W s now key value ttl) now (gateway_key h slot) h.token deadline e (
                run_set-HeldUntil W s now key value ttl (gateway_key h slot) h.token deadline may.3
                  stays),
          )
    Runs_other-Holds {v} {s'} h other deadline valid _ differ may (evals script key token ttl e)
          held =
        λ before.
          let (slot, below, stays) = held before in
          (
            slot,
            below,
            moved (run_script W script s now key token ttl) now (gateway_key h slot) h.token
                deadline e
                (run_script-HeldUntil W script s now key token ttl (gateway_key h slot) h.token
                  deadline (sent_time script may)
                  (λ same. differ (sym (sent_token script may) ∙ same)) stays),
          )
      where
        sent_token :
            (x : Script) → MaySend other most valid (eval x key token ttl) → token ≡ other.token
        sent_token complete m = m.1
        sent_token renew m = m.1

        sent_time : (x : Script) → MaySend other most valid (eval x key token ttl) → IsTime W ttl
        sent_time complete m = subst (IsTime W) (sym m.2) tt
        sent_time renew m = subst (IsTime W) (sym m.2) m.3

    -- A command of the gateway itself leaves the hold of its validity.
    pub Runs_own-Holds :
        {v : Value} {s' : W.Store} (h : Holder) (deadline : ℕ) (valid : Option ℕ) (c : Command)
        → valid ≡ some deadline
        → deadline ≤ now + h.lease_ttl
        → MaySend h most valid c
        → Runs W most h s now c v s'
        → Holds h s now deadline
        → Holds h s' now deadline
    Runs_own-Holds {v} {s'} h deadline valid _ is within may (reads key possible e) held =
        subst (λ x. Holds h x now deadline) (sym e) held
    Runs_own-Holds {v} {s'} h deadline valid _ is within may (sets key value ttl e) held = λ before.
        let (slot, below, stays) = held before in
        (
          slot,
          below,
          moved (run_set W s now key value ttl) now (gateway_key h slot) h.token deadline e (
              run_set-HeldUntil W s now key value ttl (gateway_key h slot) h.token deadline may.3
                stays),
        )
    Runs_own-Holds {v} {s'} h deadline valid _ is within may (evals complete key token ttl e) held =
        absurd (let bad : none ≡ some deadline = sym may.0 ∙ is in cc)
    Runs_own-Holds {v} {s'} h deadline valid _ is within may (evals renew key token ttl e) held =
        λ before.
          let (at, same, whole, positive) = may in
          let (slot, below, stays) = held before in
          (
            slot,
            below,
            moved (run_script W renew s now key h.token (some h.lease_ttl)) now (gateway_key h slot)
                h.token deadline
                (e
                  ∙ ap (λ t. run_script W renew s now key t ttl) same
                  ∙ ap (λ t. run_script W renew s now key h.token t) whole)
                (run_renew-HeldUntil W s now key h.token h.lease_ttl (gateway_key h slot) deadline
                  positive within stays),
          )

    -- A command that is granted holds a slot for the whole time to live.
    pub Runs-granted :
        {v : Value} {s' : W.Store} (h : Holder) (read : ℕ) (valid : Option ℕ) (c : Command)
        → read ≤ now
        → MaySend h most valid c
        → Runs W most h s now c v s'
        → Grants h most c (reply v)
        → Holds h s' now (read + h.lease_ttl)
    Runs-granted {v} {s'} h read valid _ le may (reads key possible e) granted = absurd granted
    Runs-granted {v} {s'} h read valid _ le may (sets key value ttl e) granted = λ before.
        let ((slot, below, at), own, whole, positive) = may in
        let run : Value × W.Store = run_set W s now (gateway_key h slot) h.token h.lease_ttl in
        let eq : (v, s') ≡ run =
          e
          ∙ ap (λ k. run_set W s now k value ttl) at
          ∙ ap (λ t. run_set W s now (gateway_key h slot) t ttl) own
          ∙ ap (λ t. run_set W s now (gateway_key h slot) h.token t) whole in
        let yes : read_reserved (reply run.0) ≡ ok true =
          subst (λ (x : Value). read_reserved (reply x) ≡ ok true)
            (ap (λ (x : Value × W.Store). x.0) eq) granted in
        let (free, now_held) =
          run_set-granted W s now (gateway_key h slot) h.token h.lease_ttl
            (subst (λ t. 0 < t) whole positive) yes in
        (
          slot,
          below,
          moved run now (gateway_key h slot) h.token (read + h.lease_ttl) eq
              (now + h.lease_ttl, now_held, omega arith),
        )
    Runs-granted {v} {s'} h read valid _ le may (evals complete key token ttl e) granted =
        absurd granted
    Runs-granted {v} {s'} h read valid _ le may (evals renew key token ttl e) granted = λ before.
        let ((slot, below, at), own, whole, positive) = may in
        let run : Value × W.Store =
          run_script W renew s now (gateway_key h slot) h.token (some h.lease_ttl) in
        let eq : (v, s') ≡ run =
          e
          ∙ ap (λ k. run_script W renew s now k token ttl) at
          ∙ ap (λ t. run_script W renew s now (gateway_key h slot) t ttl) own
          ∙ ap (λ t. run_script W renew s now (gateway_key h slot) h.token t) whole in
        let yes : read_participation (reply run.0) ≡ ok true =
          subst (λ (x : Value). read_participation (reply x) ≡ ok true)
            (ap (λ (x : Value × W.Store). x.0) eq) granted in
        (
          slot,
          below,
          moved run now (gateway_key h slot) h.token (read + h.lease_ttl) eq (
            now + h.lease_ttl,
            run_renew-granted W unexpected_participation s now (gateway_key h slot) h.token
                h.lease_ttl positive yes,
            omega arith,
          ),
        )

    pub Runs-IsPossible :
        {v : Value} {s' : W.Store} (h : Holder) (c : Command)
        → Runs W most h s now c v s'
        → IsPossible h most c (reply v)
    Runs-IsPossible h _ (reads key possible e) = possible
    Runs-IsPossible h _ (sets key value ttl e) = tt
    Runs-IsPossible h _ (evals script key token ttl e) = tt
