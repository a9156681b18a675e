-- ===== src/Redis/Lease/World.antt =====
-- The gateways that compete for slots, and the writer: `run` of src/redis_admission/lease.rs for each,
-- with every interleaving. A command may be delayed, its reply may be lost, and a refresh may be cut
-- off while it waits; what was sent may still be executed, but not after a later command of the same
-- gateway, as on one connection.
use http_gateway.Prelude.{update, ℕ, ◌+◌, ◌≡◌, Option, none, some, ok, err}
use http_gateway.External.Redis.{
  Command, get, set_nx_px, eval, Script, Value, Reply, reply, failed, Writer,
}
use http_gateway.Admission.{AdmissionError}
use http_gateway.Effects.{ret, call}
use http_gateway.Redis.Scripts.{run_set, run_script}
use http_gateway.Redis.Lease.{
  clock, draw, clear, publish, set_owned, send, Refresh, Holder, gateway_key, refresh,
}
use http_gateway.Redis.Lease.Safety.{IsPossible}

-- Between two refreshes, in one, or waiting for a reply in one.
pub data Control : Type 0 where
  idle : Control
  running : Refresh → Control
  waiting : Command → (Reply → Refresh) → Control

-- `valid` is the shared deadline, `owned` the slot of the loop; `flight` is the last command that was
-- sent, with the value of the writer once it is executed.
pub record Instance : Type 0 where
  pub control : Control
  pub valid : Option ℕ
  pub owned : Option ℕ
  pub flight : Option (Command × Option Value)

module _ (W : Writer) where
  pub record World : Type 0 where
    pub store : W.Store
    pub now : ℕ
    pub instances : ℕ → Instance

  -- The writer executes a command of a gateway.
  pub data Runs (most : ℕ) (h : Holder) (s : W.Store) (now : ℕ)
      : Command → Value → W.Store → Type 0 where
    reads :
        (key : _) {v : Value} {s' : W.Store}
        → IsPossible h most (get key) (reply v)
        → s' ≡ s
        → Runs most h s now (get key) v s'
    sets :
        (key : _) (value : _) (ttl : ℕ) {v : Value} {s' : W.Store}
        → (v, s') ≡ run_set W s now key value ttl
        → Runs most h s now (set_nx_px key value ttl) v s'
    evals :
        (script : Script) (key : _) (token : _) (ttl : Option ℕ) {v : Value} {s' : W.Store}
        → (v, s') ≡ run_script W script s now key token ttl
        → Runs most h s now (eval script key token ttl) v s'

  module _ (holder : ℕ → Holder) (most : ℕ) where
    pub data Step (w : World) : World → Type 0 where
      -- Time passes; another client changes keys that are no gateway's.
      wait : (d : ℕ) → Step w (record w { now = w.now + d })
      other :
          (s : W.Store)
          → ((i slot : ℕ)
              → W.read s w.now (gateway_key (holder i) slot)
                ≡ W.read w.store w.now (gateway_key (holder i) slot))
          → Step w (record w { store = s })
      -- The loop begins a refresh, and ends one: a failure clears the validity.
      begin :
          (i : ℕ)
          → (w.instances i).control ≡ idle
          → Step w (record w {
            instances = update w.instances i (record (w.instances i) {
              control = running (refresh (holder i) (w.instances i).owned);
            });
          })
      finish :
          (i : ℕ)
          → (w.instances i).control ≡ running (ret (ok tt))
          → Step w (record w {
            instances = update w.instances i (record (w.instances i) { control = idle });
          })
      give_up :
          (i : ℕ) (e : AdmissionError)
          → (w.instances i).control ≡ running (ret (err e))
          → Step w (record w {
            instances =
                update w.instances i (record (w.instances i) { control = idle; valid = none });
          })
      -- The local calls.
      tell :
          (i : ℕ) (k : ℕ → Refresh)
          → (w.instances i).control ≡ running (call clock k)
          → Step w (record w {
            instances =
                update w.instances i (record (w.instances i) { control = running (k w.now) });
          })
      pick :
          (i n : ℕ) (k : ℕ → Refresh)
          → (w.instances i).control ≡ running (call draw k)
          → Step w (record w {
            instances = update w.instances i (record (w.instances i) { control = running (k n) });
          })
      lapse :
          (i : ℕ) (k : Unit {0} → Refresh)
          → (w.instances i).control ≡ running (call clear k)
          → Step w (record w {
            instances =
                update w.instances i
                  (record (w.instances i) { control = running (k tt); valid = none });
          })
      make_valid :
          (i deadline : ℕ) (k : Unit {0} → Refresh)
          → (w.instances i).control ≡ running (call (publish deadline) k)
          → Step w (record w {
            instances =
                update w.instances i
                  (record (w.instances i) { control = running (k tt); valid = some deadline });
          })
      own :
          (i : ℕ) (slot : Option ℕ) (k : Unit {0} → Refresh)
          → (w.instances i).control ≡ running (call (set_owned slot) k)
          → Step w (record w {
            instances =
                update w.instances i
                  (record (w.instances i) { control = running (k tt); owned = slot });
          })
      -- A command is sent, executed, and answered; or its reply is lost, or the time is over.
      submit :
          (i : ℕ) (c : Command) (k : Reply → Refresh)
          → (w.instances i).control ≡ running (call (send c) k)
          → Step w (record w {
            instances =
                update w.instances i
                  (record (w.instances i) { control = waiting c k; flight = some (c, none) });
          })
      execute :
          (i : ℕ) (c : Command) (v : Value) (s : W.Store)
          → (w.instances i).flight ≡ some (c, none)
          → Runs most (holder i) w.store w.now c v s
          → Step w (record w {
            store = s;
            instances = update w.instances i (record (w.instances i) { flight = some (c, some v) });
          })
      answer :
          (i : ℕ) (c : Command) (k : Reply → Refresh) (v : Value)
          → (w.instances i).control ≡ waiting c k
          → (w.instances i).flight ≡ some (c, some v)
          → Step w (record w {
            instances =
                update w.instances i (record (w.instances i) { control = running (k (reply v)) });
          })
      lose :
          (i : ℕ) (c : Command) (k : Reply → Refresh)
          → (w.instances i).control ≡ waiting c k
          → Step w (record w {
            instances =
                update w.instances i (record (w.instances i) { control = running (k failed) });
          })
      time_out :
          (i : ℕ) (c : Command) (k : Reply → Refresh)
          → (w.instances i).control ≡ waiting c k
          → Step w (record w {
            instances =
                update w.instances i (record (w.instances i) { control = idle; valid = none });
          })

    pub data Reach (w : World) : World → Type 0 where
      here : Reach w w
      next : {u v : World} → Reach w u → Step u v → Reach w v

  -- A gateway that starts: it is not valid, owns nothing, and has sent nothing.
  abbrev pub fresh : Instance
  fresh = record { control = idle; valid = none; owned = none; flight = none }

  abbrev pub start : W.Store → ℕ → World
  start s now = record { store = s; now = now; instances = λ i. fresh }
