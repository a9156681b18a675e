-- ===== src/Redis/Lease/Schedule.antt =====
-- The loop of `run` of src/redis_admission/lease.rs for one gateway in time: a refresh under its timeout,
-- a load of the policy under its own (`refresh_policy`), and a waiting time that is drawn. The writer
-- may answer anything, at any time. Times are milliseconds.
use http_gateway.Prelude.{ℕ, ◌+◌, ◌*◌, ◌≤◌, ◌≡◌, Bool, true, false, Option, none, some, ok, err}
use http_gateway.External.Redis.{Command, Reply}
use http_gateway.Admission.{AdmissionError}
use http_gateway.Effects.{ret, call}
use http_gateway.Redis.Lease.{
  clock, draw, clear, publish, set_owned, send, Refresh, Holder, refresh, is_valid,
}

-- `refreshing` and `loading` have the time at which they began.
pub data Phase : Type 0 where
  refreshing : (since : ℕ) (rest : Refresh) → Phase
  loading : (since : ℕ) → Phase
  sleeping : (until : ℕ) → Phase

pub record Cycle : Type 0 where
  pub now : ℕ
  pub phase : Phase
  pub valid : Option ℕ
  pub owned : Option ℕ

-- The waiting time: from 0.8 to 1.2 intervals for a gateway that participates, else from 1 to 1.2.
abbrev pub IsJitter : (valid : Bool) → (interval d : ℕ) → Type 0
IsJitter true interval d = (4 * interval ≤ 5 * d) × (5 * d ≤ 6 * interval)
IsJitter false interval d = (interval ≤ d) × (5 * d ≤ 6 * interval)

-- By `lag` milliseconds at most, a timer fires late, and times are rounded.
module _ (h : Holder) (interval lag : ℕ) where
  abbrev pub MayLast : Phase → ℕ → Type 0
  MayLast (refreshing since rest) now = now ≤ since + interval + lag
  MayLast (loading since) now = 4 * now ≤ 4 * since + interval + 4 * lag
  MayLast (sleeping until) now = now ≤ until + lag

  pub data Step (w : Cycle) : Cycle → Type 0 where
    wait : (d : ℕ) → MayLast w.phase (w.now + d) → Step w (record w { now = w.now + d })
    wake :
        (until : ℕ)
        → w.phase ≡ sleeping until
        → until ≤ w.now
        → Step w (record w { phase = refreshing w.now (refresh h w.owned) })
    -- The local calls of a refresh.
    tell :
        (since : ℕ) (k : ℕ → Refresh)
        → w.phase ≡ refreshing since (call clock k)
        → Step w (record w { phase = refreshing since (k w.now) })
    pick :
        (since n : ℕ) (k : ℕ → Refresh)
        → w.phase ≡ refreshing since (call draw k)
        → Step w (record w { phase = refreshing since (k n) })
    lapse :
        (since : ℕ) (k : Unit {0} → Refresh)
        → w.phase ≡ refreshing since (call clear k)
        → Step w (record w { phase = refreshing since (k tt); valid = none })
    make_valid :
        (since deadline : ℕ) (k : Unit {0} → Refresh)
        → w.phase ≡ refreshing since (call (publish deadline) k)
        → Step w (record w { phase = refreshing since (k tt); valid = some deadline })
    own :
        (since : ℕ) (slot : Option ℕ) (k : Unit {0} → Refresh)
        → w.phase ≡ refreshing since (call (set_owned slot) k)
        → Step w (record w { phase = refreshing since (k tt); owned = slot })
    -- A reply, or the failure of the client.
    respond :
        (since : ℕ) (c : Command) (k : Reply → Refresh) (r : Reply)
        → w.phase ≡ refreshing since (call (send c) k)
        → Step w (record w { phase = refreshing since (k r) })
    -- The refresh ends; with an error, or when its time is over, the validity is cleared.
    finish :
        (since : ℕ)
        → w.phase ≡ refreshing since (ret (ok tt))
        → Step w (record w { phase = loading w.now })
    give_up :
        (since : ℕ) (e : AdmissionError)
        → w.phase ≡ refreshing since (ret (err e))
        → Step w (record w { phase = loading w.now; valid = none })
    time_out :
        (since : ℕ) (c : Command) (k : Reply → Refresh)
        → w.phase ≡ refreshing since (call (send c) k)
        → Step w (record w { phase = loading w.now; valid = none })
    -- The load ends, whatever it brings, and a waiting time is drawn.
    doze :
        (since d : ℕ)
        → w.phase ≡ loading since
        → IsJitter (is_valid w.now w.valid) interval d
        → Step w (record w { phase = sleeping (w.now + d) })

  pub data Reach (w : Cycle) : Cycle → Type 0 where
    here : Reach w w
    next : {u v : Cycle} → Reach w u → Step u v → Reach w v

-- After the first load of the policy, the first waiting time is drawn.
abbrev pub start : (now first : ℕ) → Cycle
start now first = record { now = now; phase = sleeping (now + first); valid = none; owned = none }
