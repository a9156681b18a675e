-- ===== src/Redis/Lease/Preservation.antt =====
-- Every step of the gateways in src/redis_admission/lease.rs keeps what is true of each.
use mathlib.Core.Option.{some-injective}
use http_gateway.Prelude.{
  ℕ, ◌≤◌, ◌≡◌, refl, ap, subst, ◌⊎◌, inl, inr, Bool, true, false, Option, none, some, Result, ok,
  err, arith,
}
use http_gateway.External.Redis.{
  Command, get, hget, set_nx_px, hincrby, eval, complete, renew, Value, Reply, failed, Writer,
}
use http_gateway.Admission.{AdmissionError}
use http_gateway.Redis.Replies.{read_reserved, read_transition, read_number}
use http_gateway.Redis.Lease.{Holder, read_participation, read_limit}
use http_gateway.Redis.Lease.Safety.{MaySend, Grants, IsPossible}
use http_gateway.Redis.Lease.World.{Control, idle, running, waiting, Instance, Runs}
use http_gateway.Redis.Lease.Invariant.{
  Holds, Fits, IsGood, Holds-later, Runs_own-Holds, Runs-granted, Runs-IsPossible,
}

module _ (h : Holder) (most : ℕ) where
  pub MaySend-none :
      (valid : Option ℕ) (c : Command) → MaySend h most valid c → MaySend h most none c
  MaySend-none valid (get key) m = m
  MaySend-none valid (hget key name) m = absurd m
  MaySend-none valid (set_nx_px key value ttl) m = m
  MaySend-none valid (hincrby key name n) m = absurd m
  MaySend-none valid (eval complete key token ttl) m = (refl, m.1, m.2)
  MaySend-none valid (eval renew key token ttl) m = m

  is_ok_true : (o : Result AdmissionError Bool) → (o ≡ ok true) ⊎ (¬ (o ≡ ok true))
  is_ok_true (ok true) = inl refl
  is_ok_true (ok false) = inr (λ e. cc)
  is_ok_true (err x) = inr (λ e. cc)

  pub Grants-cases : (c : Command) (r : Reply) → Grants h most c r ⊎ (¬ Grants h most c r)
  Grants-cases (set_nx_px key value ttl) r = is_ok_true (read_reserved r)
  Grants-cases (eval renew key token ttl) r = is_ok_true (read_participation r)
  Grants-cases (get key) r = inr (λ g. g)
  Grants-cases (hget key name) r = inr (λ g. g)
  Grants-cases (hincrby key name n) r = inr (λ g. g)
  Grants-cases (eval complete key token ttl) r = inr (λ g. g)

  pub failed-not-Grants : (c : Command) → ¬ Grants h most c failed
  unfolding read_reserved read_transition
  failed-not-Grants (set_nx_px key value ttl) g = cc
  failed-not-Grants (eval renew key token ttl) g = cc
  failed-not-Grants (get key) g = g
  failed-not-Grants (hget key name) g = g
  failed-not-Grants (hincrby key name n) g = g
  failed-not-Grants (eval complete key token ttl) g = g

  pub failed-IsPossible : (c : Command) → IsPossible h most c failed
  unfolding read_limit read_number
  failed-IsPossible (get key) = λ n e. cc
  failed-IsPossible (set_nx_px key value ttl) = tt
  failed-IsPossible (eval script key token ttl) = tt
  failed-IsPossible (hget key name) = tt
  failed-IsPossible (hincrby key name n) = tt

module _ (W : Writer) (most : ℕ) (h : Holder) where
  Fits-later :
      (s : W.Store) (now later : ℕ) (g : Instance) (c : Control)
      → now ≤ later
      → Fits W most h s now g c
      → Fits W most h s later g c
  Fits-later s now later g idle le f = tt
  Fits-later s now later g (running p) le (grant, read, safe, past, facts) = (
    grant,
    read,
    safe,
    omega arith,
    (λ deadline e.
        let (within, holds, done) = facts deadline e in
        (omega arith, Holds-later W most h s now later deadline le holds, done)),
  )
  Fits-later s now later g (waiting c k) le (read, safe, past, facts) = (
    read,
    safe,
    omega arith,
    (λ v e.
        let (possible, granted) = facts v e in
        (possible, λ x. Holds-later W most h s now later _ le (granted x))),
  )

  pub IsGood-later :
      (s : W.Store) (now later : ℕ) (g : Instance)
      → now ≤ later
      → IsGood W most h s now g
      → IsGood W most h s later g
  IsGood-later s now later g le b = record {
    bounded = λ deadline e. omega (arith, b.bounded deadline e);
    held = λ deadline e. Holds-later W most h s now later deadline le (b.held deadline e);
    allowed = b.allowed;
    fits = Fits-later s now later g g.control le b.fits;
  }

  module _ (s s' : W.Store) (now : ℕ) where
    -- The writer's state changes, and every hold stays.
    abbrev pub Keeps : Type 0
    Keeps = (deadline : ℕ) → Holds W most h s now deadline → Holds W most h s' now deadline

    Fits-store :
        (g : Instance) (c : Control) → Keeps → Fits W most h s now g c → Fits W most h s' now g c
    Fits-store g idle keeps f = tt
    Fits-store g (running p) keeps (grant, read, safe, past, facts) = (
      grant,
      read,
      safe,
      past,
      (λ deadline e.
          let (within, holds, done) = facts deadline e in (within, keeps deadline holds, done)),
    )
    Fits-store g (waiting c k) keeps (read, safe, past, facts) = (
      read,
      safe,
      past,
      (λ v e. let (possible, granted) = facts v e in (possible, λ x. keeps _ (granted x))),
    )

    pub IsGood-store : (g : Instance) → Keeps → IsGood W most h s now g → IsGood W most h s' now g
    IsGood-store g keeps b = record {
      bounded = b.bounded;
      held = λ deadline e. keeps deadline (b.held deadline e);
      allowed = b.allowed;
      fits = Fits-store g g.control keeps b.fits;
    }

    Fits-execute :
        (g : Instance) (x : Control) (c : Command) (v : Value)
        → g.flight ≡ some (c, none)
        → MaySend h most g.valid c
        → Runs W most h s now c v s'
        → Fits W most h s now g x
        → Fits W most h s' now (record g { flight = some (c, some v) }) x
    Fits-execute g idle c v sent may run f = tt
    Fits-execute g (running p) c v sent may run (grant, read, safe, past, facts) =
        (grant, read, safe, past, λ deadline e. absurd ((facts deadline e).2 c sent))
    Fits-execute g (waiting c' k) c v sent may run (read, safe, past, facts) = (
      read,
      safe,
      past,
      (λ v' e.
          let same_c : c ≡ c' = ap (λ (x : Command × Option Value). x.0) (some-injective _ _ e) in
          let same_v : v ≡ v' =
            some-injective _ _ (ap (λ (x : Command × Option Value). x.1) (some-injective _ _ e)) in
          let run' : Runs W most h s now c' v' s' =
            subst (λ x. Runs W most h s now c' x s') same_v
              (subst (λ x. Runs W most h s now x v s') same_c run) in
          (
            Runs-IsPossible W most s now h c' run',
            Runs-granted W most s now h read g.valid c' past
                (subst (MaySend h most g.valid) same_c may) run',
          )),
    )

    -- The gateway's own command is executed.
    pub IsGood-execute :
        (g : Instance) (c : Command) (v : Value)
        → g.flight ≡ some (c, none)
        → Runs W most h s now c v s'
        → IsGood W most h s now g
        → IsGood W most h s' now (record g { flight = some (c, some v) })
    IsGood-execute g c v sent run b = record {
      bounded = b.bounded;
      held = λ deadline e.
          Runs_own-Holds W most s now h deadline g.valid c e (b.bounded deadline e)
            (b.allowed c sent) run (b.held deadline e);
      allowed = λ c' e. absurd (cc);
      fits = Fits-execute g g.control c v sent (b.allowed c sent) run b.fits;
    }
