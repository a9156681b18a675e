-- ===== src/Redis/Discovery/Guards.antt =====
-- The guards of src/redis_admission/discovery.rs, over all interleavings of the requests.
use http_gateway.Prelude.{ℕ, suc, ◌+◌, ◌≤◌, ◌<◌, ◌≡◌, refl, Bool, true, false, some, ok, err, arith}
use http_gateway.Redis.Discovery.{
  RecorderDiscovery, new_discovery, try_lookup, drop_lookup, recorder_retry_interval, cooling_down,
}

-- The shared state, the guards that requests hold, and the clock.
pub record System : Type 0 where
  pub discovery : RecorderDiscovery
  pub guards : ℕ
  pub now : ℕ

-- Any request may ask at any time, any holder may drop its guard (also by being cancelled), and
-- time passes.
pub data Step (s : System) : System → Type 0 where
  take :
      (d : RecorderDiscovery)
      → try_lookup s.now s.discovery ≡ ok d
      → Step s (record s { discovery = d; guards = suc s.guards })
  leave :
      (n : ℕ) (available : Bool)
      → s.guards ≡ suc n
      → Step s
          (record { discovery = drop_lookup s.now available s.discovery; guards = n; now = s.now })
  wait : (d : ℕ) → Step s (record s { now = s.now + d })

pub data Reach (s : System) : System → Type 0 where
  here : Reach s s
  next : {t u : System} → Reach s t → Step t u → Reach s u

abbrev pub start : ℕ → System
start now = record { discovery = new_discovery; guards = 0; now = now }

-- `checking` is set exactly while a guard is held, which is one at most.
pub record IsGuarded (s : System) : Type 0 where
  pub held : s.discovery.checking ≡ true → s.guards ≡ 1
  pub free : s.discovery.checking ≡ false → s.guards ≡ 0

Step-IsGuarded : {s t : System} → IsGuarded s → Step s t → IsGuarded t
unfolding try_lookup drop_lookup
Step-IsGuarded v (take d e) = ground arith
Step-IsGuarded v (leave n available e) = ground arith
Step-IsGuarded v (wait d) = ground arith

-- In every state that the requests of a process reach, at most one holds the lookup, and the flag
-- `checking` says whether one does.
pub Reach-IsGuarded : {now : ℕ} {s : System} → Reach (start now) s → IsGuarded s
Reach-IsGuarded here = ground arith
Reach-IsGuarded (next r st) = Step-IsGuarded (Reach-IsGuarded r) st

-- A cooldown that a failed lookup began, with no guard held, until its deadline.
pub record IsCooling (deadline : ℕ) (s : System) : Type 0 where
  pub waits : s.discovery.retry_after ≡ some deadline
  pub unheld : s.guards ≡ 0

Step-IsCooling :
    {deadline : ℕ} {s t : System}
    → IsCooling deadline s
    → t.now < deadline
    → Step s t
    → IsCooling deadline t
unfolding try_lookup
Step-IsCooling v h (take d e) = ground arith
Step-IsCooling v h (leave n available e) = ground arith
Step-IsCooling v h (wait d) = ground arith

now_mono : {s t : System} → Step s t → s.now ≤ t.now
now_mono (take d e) = omega arith
now_mono (leave n available e) = omega arith
now_mono (wait d) = omega arith

cooled :
    {deadline : ℕ} {a t : System}
    → IsCooling deadline a
    → Reach a t
    → t.now < deadline
    → IsCooling deadline t
cooled v here h = v
cooled v (next {t = m} r st) h = Step-IsCooling (cooled v r (omega (arith, now_mono st))) h st

cooling-denies :
    (deadline : ℕ) (t : System)
    → IsCooling deadline t
    → t.now < deadline
    → try_lookup t.now t.discovery ≡ err cooling_down
unfolding try_lookup
cooling-denies deadline t v h = ground arith

-- Once a lookup has failed, whatever the requests do, none gets a guard before ten seconds have
-- passed.
pub Reach-IsCooling :
    {s t : System} (n : ℕ)
    → IsGuarded s
    → s.guards ≡ suc n
    → Reach (record { discovery = drop_lookup s.now false s.discovery; guards = n; now = s.now }) t
    → t.now < s.now + recorder_retry_interval
    → (t.guards ≡ 0) × (try_lookup t.now t.discovery ≡ err cooling_down)
unfolding drop_lookup
Reach-IsCooling {s} {t} n v e r h =
    let none_held : n ≡ 0 = ground arith in
    let c = cooled (record { waits = refl; unheld = none_held }) r h in
    (c.unheld, cooling-denies _ t c h)
