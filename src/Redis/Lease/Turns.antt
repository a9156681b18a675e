-- ===== src/Redis/Lease/Turns.antt =====
-- The steps of one gateway in src/redis_admission/lease.rs keep its invariant.
use mathlib.Core.Option.{some-injective}
use http_gateway.Prelude.{
  ℕ, ◌+◌, ◌≤◌, ◌<◌, ◌≡◌, sym, ap, subst, ◌∙◌, inl, inr, Option, none, some, arith,
}
use http_gateway.External.Redis.{Command, Value, Reply, reply, failed, Writer}
use http_gateway.Effects.{call}
use http_gateway.Redis.Lease.{
  clock, draw, clear, publish, set_owned, send, Refresh, Holder, refresh,
}
use http_gateway.Redis.Lease.Safety.{MaySend, IsSafe, refresh-IsSafe}
use http_gateway.Redis.Lease.World.{Control, running, waiting, Instance}
use http_gateway.Redis.Lease.Invariant.{Holds, Fits, IsGood}
use http_gateway.Redis.Lease.Preservation.{
  MaySend-none, Grants-cases, failed-not-Grants, failed-IsPossible,
}

module _ (W : Writer) (most : ℕ) (h : Holder) (s : W.Store) (now : ℕ) (g : Instance)
    (b : IsGood W most h s now g) where
  Fits-at : (c : Control) → g.control ≡ c → Fits W most h s now g c
  Fits-at c e = subst (λ x. Fits W most h s now g x) e b.fits

  pub cleared-IsGood :
      (c : Control)
      → Fits W most h s now (record g { control = c; valid = none }) c
      → IsGood W most h s now (record g { control = c; valid = none })
  cleared-IsGood c f = record {
    bounded = λ deadline e. cc;
    held = λ deadline e. cc;
    allowed = λ x e. MaySend-none h most g.valid x (b.allowed x e);
    fits = f;
  }

  pub turned-IsGood :
      (c : Control)
      → Fits W most h s now (record g { control = c }) c
      → IsGood W most h s now (record g { control = c })
  turned-IsGood c f = record { bounded = b.bounded; held = b.held; allowed = b.allowed; fits = f }

  pub begin-IsGood :
      0 < h.lease_ttl → IsGood W most h s now (record g { control = running (refresh h g.owned) })
  begin-IsGood positive =
      turned-IsGood (running (refresh h g.owned))
        (none, 0, refresh-IsSafe h most positive g.valid 0 g.owned, omega arith, λ deadline e. cc)

  pub tell-IsGood :
      (k : ℕ → Refresh)
      → g.control ≡ running (call clock k)
      → IsGood W most h s now (record g { control = running (k now) })
  unfolding IsSafe
  tell-IsGood k e =
      let (grant, read, safe, past, facts) = Fits-at (running (call clock k)) e in
      turned-IsGood (running (k now)) (grant, now, safe now past, omega arith, facts)

  pub pick-IsGood :
      (n : ℕ) (k : ℕ → Refresh)
      → g.control ≡ running (call draw k)
      → IsGood W most h s now (record g { control = running (k n) })
  unfolding IsSafe
  pick-IsGood n k e =
      let (grant, read, safe, past, facts) = Fits-at (running (call draw k)) e in
      turned-IsGood (running (k n)) (grant, read, safe n, past, facts)

  pub lapse-IsGood :
      (k : Unit {0} → Refresh)
      → g.control ≡ running (call clear k)
      → IsGood W most h s now (record g { control = running (k tt); valid = none })
  unfolding IsSafe
  lapse-IsGood k e =
      let (grant, read, safe, past, facts) = Fits-at (running (call clear k)) e in
      cleared-IsGood (running (k tt)) (grant, read, safe, past, facts)

  pub make_valid-IsGood :
      (deadline : ℕ) (k : Unit {0} → Refresh)
      → g.control ≡ running (call (publish deadline) k)
      → IsGood W most h s now (record g { control = running (k tt); valid = some deadline })
  unfolding IsSafe
  make_valid-IsGood deadline k e =
      let (grant, read, safe, past, facts) = Fits-at (running (call (publish deadline) k)) e in
      let (granted, later) = safe in
      let (within, holds, done) = facts deadline granted in
      record {
        bounded = λ d e'. subst (λ x. x ≤ now + h.lease_ttl) (some-injective _ _ e') within;
        held = λ d e'. subst (Holds W most h s now) (some-injective _ _ e') holds;
        allowed = λ c e'. absurd (done c e');
        fits = (grant, read, later, past, facts);
      }

  pub own-IsGood :
      (slot : Option ℕ) (k : Unit {0} → Refresh)
      → g.control ≡ running (call (set_owned slot) k)
      → IsGood W most h s now (record g { control = running (k tt); owned = slot })
  unfolding IsSafe
  own-IsGood slot k e =
      let (grant, read, safe, past, facts) = Fits-at (running (call (set_owned slot) k)) e in
      record {
        bounded = b.bounded;
        held = b.held;
        allowed = b.allowed;
        fits = (grant, read, safe, past, facts);
      }

  pub submit-IsGood :
      (c : Command) (k : Reply → Refresh)
      → g.control ≡ running (call (send c) k)
      → IsGood W most h s now (record g { control = waiting c k; flight = some (c, none) })
  unfolding IsSafe
  submit-IsGood c k e =
      let (grant, read, safe, past, facts) = Fits-at (running (call (send c) k)) e in
      record {
        bounded = b.bounded;
        held = b.held;
        allowed = λ c' e'.
            subst (MaySend h most g.valid)
              (ap (λ (x : Command × Option Value). x.0) (some-injective _ _ e')) safe.0;
        fits = (read, safe, past, λ v e'. absurd (cc));
      }

  pub answer-IsGood :
      (c : Command) (k : Reply → Refresh) (v : Value)
      → g.control ≡ waiting c k
      → g.flight ≡ some (c, some v)
      → IsGood W most h s now (record g { control = running (k (reply v)) })
  unfolding IsSafe
  answer-IsGood c k v e sent =
      let (read, safe, past, facts) = Fits-at (waiting c k) e in
      let (possible, granted) = facts v sent in
      let (may, on_grant, on_refusal) = safe in
      elim (Grants-cases h most c (reply v)) [
        | inr no_grant ↦
            turned-IsGood (running (k (reply v)))
              (none, read, on_refusal (reply v) possible no_grant, past, λ deadline e'. cc)
        | inl yes_grant ↦ turned-IsGood (running (k (reply v))) (
          some (read + h.lease_ttl),
          read,
          on_grant (reply v) possible yes_grant,
          past,
          (λ deadline e'.
              let same : read + h.lease_ttl ≡ deadline = some-injective _ _ e' in
              (
                omega arith,
                subst (Holds W most h s now) same (granted yes_grant),
                (λ c' e''. absurd (let both = sym sent ∙ e'' in cc)),
              )),
        )
      ]

  pub lose-IsGood :
      (c : Command) (k : Reply → Refresh)
      → g.control ≡ waiting c k
      → IsGood W most h s now (record g { control = running (k failed) })
  unfolding IsSafe
  lose-IsGood c k e =
      let (read, safe, past, facts) = Fits-at (waiting c k) e in
      let (may, on_grant, on_refusal) = safe in
      turned-IsGood (running (k failed)) (
        none,
        read,
        on_refusal failed (failed-IsPossible h most c) (failed-not-Grants h most c),
        past,
        λ deadline e'. cc,
      )
