-- ===== src/Redis/Execution.antt =====
-- A program of src/redis_admission.rs that sends commands, with the writer that executes them.
use http_gateway.Prelude.{ℕ, String, Option, none, some, Result}
use http_gateway.External.Redis.{
  Command, get, hget, set_nx_px, hincrby, eval, Value, nil, bulk_string, Reply, reply, Writer,
}
use http_gateway.Admission.{AdmissionError}
use http_gateway.Effects.{Prog, ret, call}
use http_gateway.Redis.Scripts.{run_set, run_script}
use http_gateway.Redis.Utf8.Encoding.{as_bytes}

abbrev pub Replies : Command → Type 0
Replies c = Reply

-- What sends commands and may fail.
abbrev pub Sent : Type 0 → Type 0
Sent A = Prog Replies (Result AdmissionError A)

abbrev pub stored : Option (String × ℕ) → Value
stored none = nil
stored (some (value, end)) = bulk_string (as_bytes value)

module _ (W : Writer) where
  -- Hashes are not among the keys of a `Writer`.
  abbrev pub execute : ℕ → Command → W.Store → Option (Value × W.Store)
  execute now (get key) s = some (stored (W.read s now key), s)
  execute now (hget key field) s = none
  execute now (set_nx_px key value ttl) s = some (run_set W s now key value ttl)
  execute now (hincrby key field amount) s = none
  execute now (eval script key token ttl) s = some (run_script W script s now key token ttl)

  -- The program with every command executed at once, at the time `now`.
  abbrev pub run_sent : {A : Type 0} → ℕ → Prog Replies A → W.Store → Option (A × W.Store)
  run_sent now (ret a) s = some (a, s)
  run_sent now (call c k) s = elim (execute now c s) [
    | none ↦ none
    | some (v, s') ↦ run_sent now (k (reply v)) s'
  ]
