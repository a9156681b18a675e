-- ===== src/Tests/Taking.antt =====
-- An acquisition of src/redis_admission.rs with a recorder's address and a free slot.
use http_gateway.Prelude.{
  ◌≡◌, ◌≢◌, refl, some, none, ok, true, false, arith, str_eq, eq_iff, if◌then◌else◌, trim, is_ascii,
}
use http_gateway.External.Redis.{reply}
use http_gateway.Messages.{AdmissionTicket}
use http_gateway.Admission.{new_ticket, with_origin}
use http_gateway.Redis.Discovery.{RecorderDiscovery, new_discovery, try_lookup}
use http_gateway.Redis.Execution.{stored}
use http_gateway.Redis.Registration.{origin, trim_white}
use http_gateway.Redis.Replies.{hex}
use http_gateway.Redis.Utf8.{decode, lead}
use http_gateway.Redis.Utf8.Encoding.{as_bytes, encode}
use http_gateway.Redis.Acquire.{slot_key, token_of, read_origin, slot_ticket, try_acquire}
use http_gateway.Redis.Acquire.Taking.{Standing, run_ask, won, is_free, try_acquire-Ends}
use http_gateway.Tests.Demo.{table}
use http_gateway.Tests.Keys.{Keys, keys, look}
use http_gateway.Tests.Recorder.{web, json, home}
use http_gateway.Tests.Redis.{provider}

abbrev published : Keys
published k = if str_eq "app:recorder-url" k then some ("http://r/", 90_000) else none

abbrev at_rest : Standing keys
at_rest = record { store = published; discovery = new_discovery }

abbrev looking : RecorderDiscovery
looking = record { retry_after = none; checking = true }

abbrev ticket : AdmissionTicket web
ticket = record { scope = "api"; token = token_of (1, 2); origin = some home }

ticket_built : slot_ticket web table json "api" home (1, 2) ≡ ok ticket
unfolding new_ticket with_origin trim is_ascii hex
ticket_built = refl

address_read :
    read_origin web table json (reply (stored (keys.read published 500 provider.recorder_url_key)))
    ≡ ok (some home)
unfolding read_origin origin decode lead trim_white as_bytes encode
address_read = refl

guard_free : try_lookup 500 new_discovery ≡ ok looking
unfolding try_lookup
guard_free = refl

keys_apart : slot_key provider "api" ≢ provider.recorder_url_key
keys_apart e =
    let bad : false ≡ true = (eq_iff (slot_key provider "api") provider.recorder_url_key).1 e in cc

try_acquire-Ends_example :
    (store : Keys) × (run_ask web table json keys provider 500
        (1, 2)
        none
        (try_acquire web table json provider "api")
        at_rest
      ≡ some (
        ok (won ticket (is_free keys provider 500 "api" published)),
        record { store = store; discovery = record { retry_after = none; checking = false } },
      ))
    × (look store 500 "app:inflight:api" ≡ some (token_of (1, 2), 60_500))
try_acquire-Ends_example =
    try_acquire-Ends web table json keys provider 500 (1, 2) none "api" home ticket ticket_built
      (omega arith) at_rest looking guard_free keys_apart address_read
