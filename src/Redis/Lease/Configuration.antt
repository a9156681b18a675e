-- ===== src/Redis/Lease/Configuration.antt =====
-- src/redis_admission/lease.rs: the configuration of a lease, and how it starts.
use Prim.Native.String
use http_gateway.Prelude.{
  ℕ, ◌/◌, ◌%◌, String, Bool, not, ◌||◌, Result, ok, err, ltb, ◌==◌, if◌then◌else◌, is_empty_str,
  trim, Duration, as_millis, subsec_nanos, from_secs,
}
use http_gateway.Prelude.Results.{◌>>◌}
use http_gateway.Redis.Policy.{i64_max}
use http_gateway.Redis.Replies.{hex}
use http_gateway.Redis.Lease.{Holder}

pub record GatewayLeaseConfig : Type 0 where
  pub instance_id : String
  pub lease_ttl : Duration
  pub refresh_interval : Duration

abbrev pub new_lease_config : String → GatewayLeaseConfig
new_lease_config id = record {
  instance_id = id;
  lease_ttl = from_secs 30;
  refresh_interval = from_secs 10;
}

pub data GatewayLeaseConfigError : Type 0 where
  invalid_timing already_configured recorder_key_conflict no_runtime : GatewayLeaseConfigError

unfoldable pub validate : GatewayLeaseConfig → Result GatewayLeaseConfigError (Unit {0})
validate c =
    if as_millis c.lease_ttl == 0
      || ltb i64_max (as_millis c.lease_ttl)
      || not (subsec_nanos c.lease_ttl % 1_000_000 == 0)
      || as_millis c.refresh_interval == 0
      || not (subsec_nanos c.refresh_interval % 1_000_000 == 0)
      || ltb (c.lease_ttl / 3) c.refresh_interval
    then err invalid_timing
    else ok tt

-- What the task of a lease is started with.
pub record GatewayLease : Type 0 where
  pub holder : Holder
  pub instance_id : String
  pub refresh_interval : Duration

abbrev pub instance_name : String → ℕ → String
instance_name id random = if is_empty_str (trim id) then String.◌++◌ "gw-" (hex 32 random) else id

-- `start` with the two random numbers that it may draw, and whether a runtime is there.
unfoldable pub start_lease :
    String
    → GatewayLeaseConfig
    → (runtime : Bool) → (random_id random_token : ℕ) → Result GatewayLeaseConfigError GatewayLease
unfolding validate
start_lease prefix c runtime a b =
    validate c
    >> (if runtime
        then ok (record {
          holder = record {
            prefix = prefix;
            token = String.◌++◌ (instance_name c.instance_id a) (String.◌++◌ ":" (hex 32 b));
            lease_ttl = as_millis c.lease_ttl;
          };
          instance_id = instance_name c.instance_id a;
          refresh_interval = c.refresh_interval;
        })
        else err no_runtime)
