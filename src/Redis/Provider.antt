-- ===== src/Redis/Provider.antt =====
-- src/redis_admission.rs: how a provider is configured, and whether it participates.
pub mod Keys
use Prim.Native.String
use http_gateway.Prelude.{
  ℕ, ◌%◌, String, Bool, true, false, not, ◌&&◌, ◌||◌, Option, none, some, Result, ok, err, List, [],
  ◌∷◌, all, is_empty, leb, ltb, ◌==◌, if◌then◌else◌, is_empty_str, is_some, str_eq, Duration,
  as_millis, subsec_nanos, from_secs, from_millis,
}
use http_gateway.Prelude.Results.{◌>>=◌}
use http_gateway.Redis.Acquire.{Provider}
use http_gateway.Redis.Policy.{i64_max, chars}
use http_gateway.Redis.Replies.{is_digit, decimal, u64_max}
use http_gateway.Redis.Lease.{is_valid}
use http_gateway.Redis.Lease.Configuration.{
  GatewayLeaseConfig, GatewayLeaseConfigError, already_configured,
  recorder_key_conflict as participation_key_conflict, GatewayLease, start_lease,
}

pub data RedisAdmissionConfigError : Type 0 where
  recorder_key_conflict empty_prefix empty_recorder_key invalid_ttl : RedisAdmissionConfigError

abbrev pub default_recording_ttl : Duration
default_recording_ttl = from_secs 60

-- The key of the API policy, and that of the counts (`PolicyStore::new`).
abbrev pub policy_key : String → String
policy_key prefix = String.◌++◌ prefix ":api-policy"

abbrev pub counts_key_of : String → String
counts_key_of prefix = String.◌++◌ prefix ":api-counts"

unfoldable pub with_ttl : String → String → Duration → Result RedisAdmissionConfigError Provider
with_ttl key_prefix recorder_url_key ttl =
    if is_empty_str key_prefix
    then err empty_prefix
    else if is_empty_str recorder_url_key
    then err empty_recorder_key
    else if str_eq recorder_url_key (policy_key key_prefix)
        || str_eq recorder_url_key (counts_key_of key_prefix)
    then err recorder_key_conflict
    else if as_millis ttl == 0
        || ltb i64_max (as_millis ttl)
        || not (subsec_nanos ttl % 1_000_000 == 0)
    then err invalid_ttl
    else ok (record {
      key_prefix = key_prefix;
      recorder_url_key = recorder_url_key;
      counts_key = counts_key_of key_prefix;
      ttl_ms = as_millis ttl;
    })

abbrev pub new_provider : String → String → Result RedisAdmissionConfigError Provider
new_provider key_prefix recorder_url_key =
    with_ttl key_prefix recorder_url_key default_recording_ttl

abbrev pub reservation_ttl : Provider → Duration
reservation_ttl p = from_millis p.ttl_ms

-- `str::strip_prefix` over characters.
unfoldable pub strip_prefix : List ℕ → List ℕ → Option (List ℕ)
strip_prefix [] cs = some cs
strip_prefix (p ∷ ps) [] = none
strip_prefix (p ∷ ps) (c ∷ cs) = if p == c then strip_prefix ps cs else none

abbrev pub drop_plus : List ℕ → List ℕ
drop_plus [] = []
drop_plus (c ∷ cs) = if c == b'+' then cs else c ∷ cs

-- `parse::<usize>` of characters.
abbrev pub parse_usize : List ℕ → Option ℕ
parse_usize cs =
    if not (is_empty (drop_plus cs))
      && all is_digit (drop_plus cs)
      && leb (decimal 0 (drop_plus cs)) u64_max
    then some (decimal 0 (drop_plus cs))
    else none

abbrev pub slot_number : Option (List ℕ) → Option ℕ
slot_number none = none
slot_number (some cs) = parse_usize cs

-- Whether a key is one that the participation of gateways uses.
unfoldable pub is_participation_key : String → String → Bool
unfolding strip_prefix decimal
is_participation_key prefix key =
    str_eq key (String.◌++◌ prefix ":max-gateways")
    || is_some (slot_number (strip_prefix (chars (String.◌++◌ prefix ":gateway:")) (chars key)))

-- A provider with its participation.
pub record Participant : Type 0 where
  pub provider : Provider
  pub participation : Option GatewayLease

abbrev pub alone : Provider → Participant
alone p = record { provider = p; participation = none }

unfoldable pub with_gateway_limit :
    Participant
    → GatewayLeaseConfig
    → (runtime : Bool) → (random_id random_token : ℕ) → Result GatewayLeaseConfigError Participant
unfolding is_participation_key start_lease
with_gateway_limit x c runtime a b =
    if is_some x.participation
    then err already_configured
    else if is_participation_key x.provider.key_prefix x.provider.recorder_url_key
    then err participation_key_conflict
    else start_lease x.provider.key_prefix c runtime a b >>= λ lease.
        ok (record x { participation = some lease })

-- `is_participating`, where `deadline` is the shared deadline of the lease.
abbrev pub is_participating : Participant → ℕ → Option ℕ → Bool
is_participating x now deadline = elim x.participation [
  | none ↦ true
  | some lease ↦ is_valid now deadline
]
