-- ===== src/Redis/Policy/Store.antt =====
-- src/redis_admission/policy.rs: the policy that is loaded from the writer, and its snapshot. The
-- parser of serde_json for `PolicyConfig` is a parameter.
pub mod Loading
pub mod Loaders
pub mod Order
use Prim.Native.String
use http_gateway.Prelude.{
  ℕ, String, Bool, true, false, ◌&&◌, Option, none, some, Result, ok, err, List, [], ◌∷◌,
  if◌then◌else◌, is_some, bytes_eq,
}
use http_gateway.Prelude.Results.{or_err, ◌>>=◌}
use http_gateway.External.Http.{Http}
use http_gateway.External.Router.{Router}
use http_gateway.External.Redis.{nil, bulk_string, Reply, reply, failed}
use http_gateway.Admission.{AdmissionError, backend, client, timeout}
use http_gateway.Redis.Policy.{
  PolicyConfig, default_policy, invalid, CompiledPolicy, compile_policy,
}

-- The text of the policy as it was read; `none` is a missing key.
abbrev pub Raw : Type 0
Raw = Option (List ℕ)

abbrev pub same_raw : Raw → Raw → Bool
same_raw none none = true
same_raw none (some b) = false
same_raw (some a) none = false
same_raw (some a) (some b) = bytes_eq a b

unfoldable pub read_raw : Reply → Result AdmissionError Raw
read_raw (reply nil) = ok none
read_raw (reply (bulk_string bytes)) = ok (some bytes)
read_raw failed = err (backend client)
read_raw (reply v) = err (invalid "API policy must be a JSON string")

module _ (H : Http) (R : Router) (parse : List ℕ → Option PolicyConfig) where
  pub record Snapshot : Type 0 where
    pub raw : Raw
    pub policy : Option (CompiledPolicy H R)

  -- `PolicyStore::new`: nothing is loaded yet.
  abbrev pub new_snapshot : Snapshot
  new_snapshot = record { raw = none; policy = none }

  abbrev pub config_of : Raw → Result AdmissionError PolicyConfig
  config_of none = ok default_policy
  config_of (some bytes) = or_err (parse bytes) (backend client)

  -- The result of a load, and the snapshot after it.
  abbrev pub Load : Type 0
  Load = Result AdmissionError (Unit {0}) × Snapshot

  abbrev pub publish : Raw → Snapshot → Result AdmissionError (CompiledPolicy H R) → Load
  publish raw s (err e) = (err e, s)
  publish raw s (ok policy) = (ok tt, record { raw = raw; policy = some policy })

  abbrev pub compile_raw : Raw → Result AdmissionError (CompiledPolicy H R)
  compile_raw raw = config_of raw >>= compile_policy H R

  abbrev pub load_raw : Snapshot → Result AdmissionError Raw → Load
  load_raw s (err e) = (err e, s)
  load_raw s (ok raw) =
      if is_some s.policy && same_raw s.raw raw then (ok tt, s) else publish raw s (compile_raw raw)

  -- `load`, under its lock; without a reply the time was over first, while it waited.
  unfoldable pub load : Snapshot → Option Reply → Load
  unfolding read_raw compile_policy
  load s none = (err timeout, s)
  load s (some r) = load_raw s (read_raw r)

  -- The snapshot after some loads, one after the other.
  unfoldable pub load_all : Snapshot → List (Option Reply) → Snapshot
  unfolding load
  load_all s [] = s
  load_all s (r ∷ rs) = load_all (load s r).1 rs
