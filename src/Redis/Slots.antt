-- ===== src/Redis/Slots.antt =====
-- The slots of src/redis_admission.rs: any number of acquisitions, of all gateways that share a prefix,
-- and the receivers' completions and renewals, against one writer, with every interleaving. A command
-- may be delayed, its reply may be lost, and an acquisition may be cut off; what it sent may still be
-- executed. Which path a request has, and what the gateways answer locally, is free.
pub mod Grants
pub mod Tickets
pub mod Clients
pub mod Execution
pub mod Exclusion
use http_gateway.Prelude.{
  update, ℕ, ◌+◌, ◌<◌, String, ◌≡◌, Bool, true, false, not, ◌&&◌, Option, none, some, Result, ok,
  err, List, [], ◌∷◌, ◌++◌, str_eq, is_some, ltb, if◌then◌else◌, All,
}
use http_gateway.External.Http.{Http}
use http_gateway.External.Router.{Router}
use http_gateway.External.Json.{Json}
use http_gateway.External.Redis.{
  Command, get, hget, set_nx_px, hincrby, complete, renew, Value, other, Reply, reply, failed,
  Writer,
}
use http_gateway.Messages.{AdmissionTicket}
use http_gateway.Admission.{acquired}
use http_gateway.Effects.{Prog, ret, call, Event}
use http_gateway.Redis.Scripts.{run_set, run_script}
use http_gateway.Redis.Acquire.{
  Provider, slot_key, Ask, Told, participating, look_up, snapshot, draw, close, send, Outcome,
  try_acquire, try_acquire_request,
}

-- A reservation that the writer has granted, until its time is over or it is completed.
pub record Grant : Type 0 where
  pub key : String
  pub token : String
  pub until : ℕ

abbrev is_of : String → String → Grant → Bool
is_of key token g = str_eq g.key key && str_eq g.token token

-- The reservations with the token on the key end at a time, where they have not ended before.
abbrev pub retime : (now : ℕ) (key token : String) (until : ℕ) → List Grant → List Grant
retime now key token until [] = []
retime now key token until (g ∷ gs) =
    let rest = retime now key token until gs in
    (if is_of key token g && ltb now g.until then record g { until = until } else g) ∷ rest

-- The reservations after SET NX.
abbrev pub granted_by : (W : Writer) → W.Store → ℕ → String → String → ℕ → List Grant → List Grant
granted_by W s now key token ttl gs =
    if is_some (W.read s now key)
    then gs
    else record { key = key; token = token; until = now + ttl } ∷ gs

module _ (H : Http) (R : Router) (J : Json) where
  abbrev pub Log : Type 0
  Log = List (Event (Told H R J))

  -- An acquisition for a scope, of a request's path where it is given, with what has been answered.
  pub data Control : Type 0 where
    idle : Control
    running :
        (scope : String) (path : Option String) → Log → Prog (Told H R J) (Outcome H R J) → Control
    waiting :
        (scope : String) (path : Option String)
        → Log
        → Command
        → (Reply → Prog (Told H R J) (Outcome H R J))
        → Control

  -- `flight` is the last command that was sent, with the value of the writer once it is executed.
  pub record Client : Type 0 where
    pub control : Control
    pub flight : Option (Command × Option Value)

  abbrev pub IsLocal : Ask H R J → Type 0
  IsLocal (send c) = ⊥
  IsLocal _ = Unit {0}

  abbrev pub note :
      String → Outcome H R J → List (String × AdmissionTicket H) → List (String × AdmissionTicket H)
  note scope (ok (acquired t)) given = (scope, t) ∷ given
  note scope _ given = given

  module _ (W : Writer) (p : Provider) where
    abbrev pub program : (scope : String) → Option String → Prog (Told H R J) (Outcome H R J)
    program scope none = try_acquire H R J p scope
    program scope (some path) = try_acquire_request H R J p scope path

    -- `given` are the tickets that acquisitions have given, with their scopes.
    pub record World : Type 0 where
      pub store : W.Store
      pub now : ℕ
      pub clients : ℕ → Client
      pub granted : List Grant
      pub given : List (String × AdmissionTicket H)

    -- The writer executes a command: reads and counts change no slot; a time to live of zero is an error.
    pub data Runs (w : World) : Command → Value → W.Store → List Grant → Type 0 where
      gets :
          (key : _) {v : Value} {s : W.Store} {gs : List Grant}
          → s ≡ w.store
          → gs ≡ w.granted
          → Runs w (get key) v s gs
      hgets :
          (key : _) (field : _) {v : Value} {s : W.Store} {gs : List Grant}
          → s ≡ w.store
          → gs ≡ w.granted
          → Runs w (hget key field) v s gs
      counts :
          (key : _) (field : _) (n : ℕ) {v : Value} {s : W.Store} {gs : List Grant}
          → s ≡ w.store
          → gs ≡ w.granted
          → Runs w (hincrby key field n) v s gs
      sets :
          (key : _) (value : _) (ttl : ℕ) {v : Value} {s : W.Store} {gs : List Grant}
          → 0 < ttl
          → (v, s) ≡ run_set W w.store w.now key value ttl
          → gs ≡ granted_by W w.store w.now key value ttl w.granted
          → Runs w (set_nx_px key value ttl) v s gs
      refuses :
          (key : _) (value : _) {v : Value} {s : W.Store} {gs : List Grant}
          → v ≡ other
          → s ≡ w.store
          → gs ≡ w.granted
          → Runs w (set_nx_px key value 0) v s gs

    abbrev pub set_client : World → ℕ → Client → World
    set_client w i c = record w { clients = update w.clients i c }

    pub data Step (w : World) : World → Type 0 where
      -- Time passes; another client changes keys that no acquisition has reserved.
      wait : (d : ℕ) → Step w (record w { now = w.now + d })
      meddle :
          (s : W.Store)
          → All (λ g. W.read s w.now g.key ≡ W.read w.store w.now g.key) w.granted
          → Step w (record w { store = s })
      begin :
          (i : ℕ) (scope : String) (path : Option String)
          → (w.clients i).control ≡ idle
          → Step w (
              set_client w i
                (record (w.clients i) { control = running scope path [] (program scope path) }))
      tell :
          (i : ℕ) (scope : String) (path : Option String) (log : Log) (e : Ask H R J)
          (r : Told H R J e) (k : Told H R J e → Prog (Told H R J) (Outcome H R J))
          → (w.clients i).control ≡ running scope path log (call e k)
          → IsLocal e
          → Step w (
              set_client w i
                (record (w.clients i) { control = running scope path (log ++ (e, r) ∷ []) (k r) }))
      submit :
          (i : ℕ) (scope : String) (path : Option String) (log : Log) (c : Command)
          (k : Reply → Prog (Told H R J) (Outcome H R J))
          → (w.clients i).control ≡ running scope path log (call (send c) k)
          → Step w (
              set_client w i
                (record { control = waiting scope path log c k; flight = some (c, none) }))
      execute :
          (i : ℕ) (c : Command) (v : Value) (s : W.Store) (gs : List Grant)
          → (w.clients i).flight ≡ some (c, none)
          → Runs w c v s gs
          → Step w (record w {
            store = s;
            granted = gs;
            clients = update w.clients i (record (w.clients i) { flight = some (c, some v) });
          })
      answer :
          (i : ℕ) (scope : String) (path : Option String) (log : Log) (c : Command)
          (k : Reply → Prog (Told H R J) (Outcome H R J)) (v : Value)
          → (w.clients i).control ≡ waiting scope path log c k
          → (w.clients i).flight ≡ some (c, some v)
          → Step w (
              set_client w i (record (w.clients i) {
                control = running scope path (log ++ (send c, reply v) ∷ []) (k (reply v));
              }))
      lose :
          (i : ℕ) (scope : String) (path : Option String) (log : Log) (c : Command)
          (k : Reply → Prog (Told H R J) (Outcome H R J))
          → (w.clients i).control ≡ waiting scope path log c k
          → Step w (
              set_client w i (record (w.clients i) {
                control = running scope path (log ++ (send c, failed) ∷ []) (k failed);
              }))
      -- The time of the acquisition is over.
      cut :
          (i : ℕ) (scope : String) (path : Option String) (log : Log) (c : Command)
          (k : Reply → Prog (Told H R J) (Outcome H R J))
          → (w.clients i).control ≡ waiting scope path log c k
          → Step w (set_client w i (record (w.clients i) { control = idle }))
      finish :
          (i : ℕ) (scope : String) (path : Option String) (log : Log) (o : Outcome H R J)
          → (w.clients i).control ≡ running scope path log (ret o)
          → Step w (record w {
            clients = update w.clients i (record (w.clients i) { control = idle });
            given = note scope o w.given;
          })
      -- A receiver completes or renews, with any token on any key.
      end :
          (key token : String)
          → Step w (record w {
            store = (run_script W complete w.store w.now key token none).1;
            granted = retime w.now key token w.now w.granted;
          })
      prolong :
          (key token : String) (ttl : ℕ)
          → 0 < ttl
          → Step w (record w {
            store = (run_script W renew w.store w.now key token (some ttl)).1;
            granted = retime w.now key token (w.now + ttl) w.granted;
          })

    pub data Reach (w : World) : World → Type 0 where
      here : Reach w w
      next : {u v : World} → Reach w u → Step u v → Reach w v

    abbrev pub start : W.Store → ℕ → World
    start s now = record {
      store = s;
      now = now;
      clients = λ i. record { control = idle; flight = none };
      granted = [];
      given = [];
    }
