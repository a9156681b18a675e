-- ===== src/Tests/Provider.antt =====
-- Runs of the configuration of src/redis_admission.rs, its receiver's side, and the lease's start.
use http_gateway.Prelude.{
  ℕ, true, trim, String, ◌≡◌, ◌≢◌, refl, Bool, ◌&&◌, none, some, ok, arith, str_eq, if◌then◌else◌,
  from_secs,
}
use http_gateway.Messages.{AdmissionTicket}
use http_gateway.Redis.Acquire.{Provider, slot_key}
use http_gateway.Redis.Policy.{chars}
use http_gateway.Redis.Replies.{decimal}
use http_gateway.Redis.Execution.{Sent, run_sent}
use http_gateway.Redis.Receiver.{complete_ticket, renew_ticket}
use http_gateway.Redis.Receiver.Ownership.{is_owned, complete_ticket_lem, renew_ticket_lem}
use http_gateway.Redis.Provider.{
  with_ttl, Participant, alone, with_gateway_limit, is_participation_key, strip_prefix,
}
use http_gateway.Redis.Provider.Keys.{AreApart, with_gateway_limit-AreApart}
use http_gateway.Redis.Lease.Configuration.{
  GatewayLeaseConfig, new_lease_config, validate, GatewayLease, start_lease,
}
use http_gateway.Redis.Lease.Starting.{IsTimed, start_lease-apart}
use http_gateway.Redis.Replies.{hex}
use http_gateway.Tests.Demo.{demo}
use http_gateway.Tests.Keys.{Keys, keys, look}

abbrev provider : Provider
provider = record {
  key_prefix = "app";
  recorder_url_key = "app:recorder-url";
  counts_key = "app:api-counts";
  ttl_ms = 60_000;
}

abbrev ticket : AdmissionTicket demo
ticket = record { scope = "api"; token = "t1"; origin = none }

abbrev reserved : Keys
reserved k = if str_eq "app:inflight:api" k then some ("t1", 60_500) else none

complete_ticket_lem_example :
    (m : Sent Bool) × (complete_ticket demo provider ticket ≡ some m)
    × ((s' : Keys) × (run_sent keys 700 m reserved
          ≡ some (ok (is_owned demo keys provider ticket reserved 700 "api" "t1"), s'))
        × ((k : String)
            → look s' 700 k ≡ (
                if str_eq (slot_key provider "api") k
                  && is_owned demo keys provider ticket reserved 700 "api" "t1"
                then none
                else look reserved 700 k)))
complete_ticket_lem_example =
    complete_ticket_lem demo keys provider ticket reserved 700 "api" "t1" refl refl

renew_ticket_lem_example :
    (m : Sent Bool) × (renew_ticket demo provider ticket ≡ some m)
    × ((s' : Keys) × (run_sent keys 700 m reserved
          ≡ some (ok (is_owned demo keys provider ticket reserved 700 "api" "t1"), s'))
        × ((k : String)
            → look s' 700 k ≡ (
                if str_eq (slot_key provider "api") k
                  && is_owned demo keys provider ticket reserved 700 "api" "t1"
                then some ("t1", 60_700)
                else look reserved 700 k)))
renew_ticket_lem_example =
    renew_ticket_lem demo keys provider ticket reserved 700 "api" "t1" (omega arith) refl refl

with_ttl-provider : with_ttl "app" "app:recorder-url" (from_secs 60) ≡ ok provider
unfolding with_ttl
with_ttl-provider = refl

abbrev pub config : GatewayLeaseConfig
config = new_lease_config "edge-1"

abbrev participant : Participant
participant = record {
  provider = provider;
  participation = some (record {
    holder = record {
      prefix = "app";
      token = "edge-1:0000000000000000000000000000002a";
      lease_ttl = 30_000;
    };
    instance_id = "edge-1";
    refresh_interval = from_secs 10;
  });
}

with_gateway_limit-participant :
    with_gateway_limit (alone provider) config true 7 42 ≡ ok participant
unfolding with_gateway_limit is_participation_key strip_prefix decimal start_lease validate hex
    chars trim
with_gateway_limit-participant = refl

with_gateway_limit-AreApart_example :
    (l : GatewayLease) × (participant.participation ≡ some l)
    × (participant.provider ≡ provider)
    × AreApart provider l.holder
with_gateway_limit-AreApart_example =
    with_gateway_limit-AreApart "app" "app:recorder-url" (from_secs 60) provider (alone provider)
      participant config true 7 42 with_ttl-provider refl with_gateway_limit-participant

abbrev lease : (String × ℕ) → GatewayLease
lease (token, interval) = record {
  holder = record { prefix = "app"; token = token; lease_ttl = 30_000 };
  instance_id = "edge-1";
  refresh_interval = interval;
}

abbrev pub first : GatewayLease
first = lease ("edge-1:0000000000000000000000000000002a", from_secs 10)

abbrev second : GatewayLease
second = lease ("edge-1:0000000000000000000000000000002b", from_secs 10)

pub start_first : start_lease "app" config true 7 42 ≡ ok first
unfolding start_lease validate hex trim
start_first = refl

start_second : start_lease "app" config true 8 43 ≡ ok second
unfolding start_lease validate hex trim
start_second = refl

start_lease-apart_example :
    (first.holder.token ≢ second.holder.token) × IsTimed config first × IsTimed config second
start_lease-apart_example =
    start_lease-apart "app" "app" config config true 7 42 8 43 first second start_first start_second
      (omega arith) (omega arith) (λ e. absurd (omega (arith, e)))
