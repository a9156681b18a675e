-- ===== src/Redis/Scripts.antt =====
-- The scripts COMPLETE and RENEW of src/redis_admission.rs and src/redis_admission/lease.rs, as the
-- writer runs them, and what they leave of a key.
pub mod Ownership
pub mod Effects
use http_gateway.Prelude.{ℕ, String, Bool, true, false, Option, none, some, str_eq, if◌then◌else◌}
use http_gateway.External.Redis.{
  Script, complete, renew, Value, int, nil, okay, Writer, Command, set_nx_px, eval,
}

module _ (W : Writer) where
  -- `redis.call('GET', KEYS[1]) == ARGV[1]`.
  abbrev pub holds_token : Option (String × ℕ) → String → Bool
  holds_token none token = false
  holds_token (some (value, end)) token = str_eq value token

  -- Both scripts return 0 unless the key holds the token; then DEL and PEXPIRE return 1.
  unfoldable pub run_script : Script → W.Store → ℕ → String → String → Option ℕ → Value × W.Store
  run_script complete s now key token ttl =
      if holds_token (W.read s now key) token then (int 1, W.del s now key) else (int 0, s)
  run_script renew s now key token (some ttl) =
      if holds_token (W.read s now key) token then (int 1, W.pexpire s now key ttl) else (int 0, s)
  run_script renew s now key token none = (int 0, s)

  -- `SET key value NX PX ttl` answers OK or nothing.
  unfoldable pub run_set : W.Store → ℕ → String → String → ℕ → Value × W.Store
  run_set s now key value ttl =
      let done = W.set_nx_px s now key value ttl in ((if done.0 then okay else nil), done.1)
