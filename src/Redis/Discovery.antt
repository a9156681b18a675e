-- ===== src/Redis/Discovery.antt =====
-- src/redis_admission/discovery.rs: one lookup at a time, and a cooldown after a failed one.
-- Times are milliseconds of the process's clock.
pub mod Guards
use http_gateway.Prelude.{
  ℕ, ◌+◌, Bool, true, false, Option, none, some, Result, ok, err, ltb, if◌then◌else◌,
}

abbrev pub recorder_retry_interval : ℕ
recorder_retry_interval = 10_000

pub record RecorderDiscovery : Type 0 where
  pub retry_after : Option ℕ
  pub checking : Bool

abbrev pub new_discovery : RecorderDiscovery
new_discovery = record { retry_after = none; checking = false }

pub data LookupUnavailable : Type 0 where
  cooling_down in_progress : LookupUnavailable

abbrev pub is_before : ℕ → Option ℕ → Bool
is_before now none = false
is_before now (some deadline) = ltb now deadline

-- `try_lookup`: the state under a new guard, or why there is none.
unfoldable pub try_lookup : ℕ → RecorderDiscovery → Result LookupUnavailable RecorderDiscovery
try_lookup now s =
    if is_before now s.retry_after
    then err cooling_down
    else if s.checking
    then err in_progress
    else ok (record s { checking = true })

-- `Lookup::drop`, with the flag that `available` sets.
unfoldable pub drop_lookup : ℕ → Bool → RecorderDiscovery → RecorderDiscovery
drop_lookup now available s = record {
  retry_after = if available then none else some (now + recorder_retry_interval);
  checking = false;
}
