-- ===== src/Redis/Lease/Timing.antt =====
-- How long a gateway stays valid: src/redis_admission/lease.rs, `run` in time.
use http_gateway.Prelude.{
  ℕ, ◌+◌, ◌*◌, ◌≤◌, ◌<◌, ◌≡◌, subst, Bool, true, false, Option, none, some, ok, arith, as_millis,
  String,
}
use http_gateway.Effects.{ret, call}
use http_gateway.Redis.Lease.{clock, draw, clear, publish, set_owned, send, Holder}
use http_gateway.Redis.Lease.Schedule.{
  Phase, refreshing, loading, sleeping, Cycle, IsJitter, MayLast, Step, wait, wake, tell, pick,
  lapse, make_valid, own, respond, finish, give_up, time_out, doze, Reach, here, next, start,
}
use http_gateway.Redis.Lease.Renewal.{IsFresh, IsBacked, Renews, refresh-Renews}
use http_gateway.Redis.Lease.Configuration.{GatewayLeaseConfig, validate, GatewayLease, start_lease}

-- The validity lasts for `n` twentieths of an interval after a time, less `late` milliseconds.
abbrev Lasts : (n late interval time : ℕ) → Option ℕ → Type 0
Lasts n late interval time none = Unit {0}
Lasts n late interval time (some deadline) = 20 * time + n * interval ≤ 20 * deadline + late

jitter_short : (valid : Bool) (interval d : ℕ) → IsJitter valid interval d → 5 * d ≤ 6 * interval
jitter_short true interval d j = j.1
jitter_short false interval d j = j.1

start_lease-timing :
    (prefix : String) (c : GatewayLeaseConfig) (runtime : Bool) (a b : ℕ) (l : GatewayLease)
    → start_lease prefix c runtime a b ≡ ok l
    → (0 < as_millis l.refresh_interval) × (3 * as_millis l.refresh_interval ≤ l.holder.lease_ttl)
unfolding start_lease validate
start_lease-timing prefix c runtime a b l e = (ground arith, ground arith)

-- A refresh that has taken at least three tenths of an interval.
abbrev pub IsOverdue : (interval : ℕ) → Phase → ℕ → Type 0
IsOverdue interval (refreshing since rest) now = 10 * since + 3 * interval ≤ 10 * now
IsOverdue interval _ now = ⊥

module _ (h : Holder) (interval lag : ℕ) where
  -- In each phase: since when, for how long the validity lasts, and that it has a slot.
  abbrev IsTimely : Phase → (now : ℕ) → (valid owned : Option ℕ) → Type 0
  IsTimely (refreshing since rest) now valid owned =
      (since ≤ now)
      × (now ≤ since + interval + lag)
      × Lasts 6 0 interval since valid
      × Renews h since valid owned rest
  IsTimely (loading since) now valid owned =
      (4 * now ≤ 4 * since + interval + 4 * lag)
      × Lasts 40 (20 * lag) interval since valid
      × IsBacked valid owned
  IsTimely (sleeping until) now valid owned =
      (now ≤ until + lag) × Lasts 11 (40 * lag) interval until valid × IsBacked valid owned

  abbrev Timely : Cycle → Type 0
  Timely w = IsTimely w.phase w.now w.valid w.owned

module _ (h : Holder) (interval lag : ℕ) (positive : 0 < interval)
    (thrice : 3 * interval ≤ h.lease_ttl) (prompt : 12 * lag ≤ interval) where
  wait-IsTimely :
      (phase : Phase) (now d : ℕ) (valid owned : Option ℕ)
      → MayLast h interval lag phase (now + d)
      → IsTimely h interval lag phase now valid owned
      → IsTimely h interval lag phase (now + d) valid owned
  wait-IsTimely (refreshing since rest) now d valid owned may (later, soon, lasts, renews) =
      (omega (arith, later), may, lasts, renews)
  wait-IsTimely (loading since) now d valid owned may (soon, lasts, backed) = (may, lasts, backed)
  wait-IsTimely (sleeping until) now d valid owned may (soon, lasts, backed) = (may, lasts, backed)

  woken-Lasts :
      (until now : ℕ) (valid : Option ℕ)
      → now ≤ until + lag
      → Lasts 11 (40 * lag) interval until valid
      → Lasts 6 0 interval now valid
  woken-Lasts until now none soon l = tt
  woken-Lasts until now (some deadline) soon l = omega (arith, soon, l, prompt)

  finished-Lasts :
      (since now : ℕ) (valid : Option ℕ)
      → now ≤ since + interval + lag
      → IsFresh h since valid
      → Lasts 40 (20 * lag) interval now valid
  finished-Lasts since now none soon f = tt
  finished-Lasts since now (some deadline) soon f = omega (arith, soon, f, thrice)

  dozed-Lasts :
      (since now d : ℕ) (valid : Option ℕ)
      → 4 * now ≤ 4 * since + interval + 4 * lag
      → 5 * d ≤ 6 * interval
      → Lasts 40 (20 * lag) interval since valid
      → Lasts 11 (40 * lag) interval (now + d) valid
  dozed-Lasts since now d none soon short l = tt
  dozed-Lasts since now d (some deadline) soon short l = omega (arith, soon, short, l)

  fresh-Lasts :
      (since deadline : ℕ)
      → since + h.lease_ttl ≤ deadline
      → Lasts 6 0 interval since (some deadline)
  fresh-Lasts since deadline f = omega (arith, f, thrice)

  -- In its phase, a cycle is timely.
  module _ (w : Cycle) (phase : Phase) (t : Timely h interval lag w) (e : w.phase ≡ phase) where
    in_phase : IsTimely h interval lag phase w.now w.valid w.owned
    in_phase = subst (λ p. IsTimely h interval lag p w.now w.valid w.owned) e t

  Step-Timely :
      {w w' : Cycle} → Timely h interval lag w → Step h interval lag w w' → Timely h interval lag w'
  unfolding Renews
  Step-Timely {w} t (wait d may) = wait-IsTimely w.phase w.now d w.valid w.owned may t
  Step-Timely {w} t (wake until e due) =
      let (soon, lasts, backed) = in_phase w (sleeping until) t e in
      (
        omega arith,
        omega arith,
        woken-Lasts until w.now w.valid soon lasts,
        refresh-Renews h w.now w.valid w.owned backed,
      )
  Step-Timely {w} t (tell since k e) =
      let (later, soon, lasts, renews) = in_phase w (refreshing since (call clock k)) t e in
      (later, soon, lasts, renews w.now later)
  Step-Timely {w} t (pick since n k e) =
      let (later, soon, lasts, renews) = in_phase w (refreshing since (call draw k)) t e in
      (later, soon, lasts, renews n)
  Step-Timely {w} t (lapse since k e) =
      let (later, soon, lasts, renews) = in_phase w (refreshing since (call clear k)) t e in
      (later, soon, tt, renews)
  Step-Timely {w} t (make_valid since deadline k e) =
      let (later, soon, lasts, renews) =
        in_phase w (refreshing since (call (publish deadline) k)) t e in
      (later, soon, fresh-Lasts since deadline renews.0, renews.1)
  Step-Timely {w} t (own since slot k e) =
      let (later, soon, lasts, renews) =
        in_phase w (refreshing since (call (set_owned slot) k)) t e in
      (later, soon, lasts, renews)
  Step-Timely {w} t (respond since c k r e) =
      let (later, soon, lasts, renews) = in_phase w (refreshing since (call (send c) k)) t e in
      (later, soon, lasts, renews r)
  Step-Timely {w} t (finish since e) =
      let (later, soon, lasts, renewed) = in_phase w (refreshing since (ret (ok tt))) t e in
      (omega arith, finished-Lasts since w.now w.valid soon renewed.0, renewed.1)
  Step-Timely {w} t (give_up since x e) = (omega arith, tt, tt)
  Step-Timely {w} t (time_out since c k e) = (omega arith, tt, tt)
  Step-Timely {w} t (doze since d e jitter) =
      let (soon, lasts, backed) = in_phase w (loading since) t e in
      (
        omega arith,
        dozed-Lasts since w.now d w.valid soon (jitter_short _ interval d jitter) lasts,
        backed,
      )

  Reach-Timely :
      (now first : ℕ) {w : Cycle}
      → Reach h interval lag (start now first) w
      → Timely h interval lag w
  Reach-Timely now first here = (omega arith, tt, tt)
  Reach-Timely now first (next r s) = Step-Timely (Reach-Timely now first r) s

  expired-IsOverdue :
      (phase : Phase) (now deadline : ℕ) (owned : Option ℕ)
      → IsTimely h interval lag phase now (some deadline) owned
      → deadline ≤ now
      → IsOverdue interval phase now
  expired-IsOverdue (refreshing since rest) now deadline owned (later, soon, lasts, renews) gone =
      omega (arith, lasts, gone)
  expired-IsOverdue (loading since) now deadline owned t gone =
      absurd (omega (arith, t.0, t.1, gone, positive, prompt))
  expired-IsOverdue (sleeping until) now deadline owned t gone =
      absurd (omega (arith, t.0, t.1, gone, positive, prompt))

-- The loop of a lease that starts, where timers and the task are late by at most a twelfth of a refresh
-- interval, whatever the writer answers: the validity of the gateway, once published, never runs out
-- between two refreshes, but only within a refresh that has taken at least three tenths of an interval.
pub Reach-IsOverdue :
    (prefix : String) (c : GatewayLeaseConfig) (runtime : Bool) (a b : ℕ) (l : GatewayLease)
    (lag now first : ℕ) {w : Cycle}
    → start_lease prefix c runtime a b ≡ ok l
    → 12 * lag ≤ as_millis l.refresh_interval
    → Reach l.holder (as_millis l.refresh_interval) lag (start now first) w
    → (deadline : ℕ) → w.valid ≡ some deadline
    → deadline ≤ w.now
    → IsOverdue (as_millis l.refresh_interval) w.phase w.now
Reach-IsOverdue prefix c runtime a b l lag now first {w} started prompt r deadline e gone =
    let timed = start_lease-timing prefix c runtime a b l started in
    let timely =
      Reach-Timely l.holder (as_millis l.refresh_interval) lag timed.0 timed.1 prompt now first r in
    expired-IsOverdue l.holder (as_millis l.refresh_interval) lag timed.0 timed.1 prompt w.phase
      w.now deadline w.owned
      (subst (λ v. IsTimely l.holder (as_millis l.refresh_interval) lag w.phase w.now v w.owned) e
        timely)
      gone
