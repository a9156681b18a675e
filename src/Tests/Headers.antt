-- ===== src/Tests/Headers.antt =====
-- Runs of src/admission.rs and of the header rules of src/proxy.rs.
use http_gateway.Prelude.{◌≡◌, refl, false, none, some, ok, [], ◌∷◌, trim, is_ascii}
use http_gateway.Messages.{AdmissionTicket, Request}
use http_gateway.Admission.{new_ticket, ticket_scope, ticket_token, from_headers, attach}
use http_gateway.Admission.Tickets.{from_headers-attach, from_headers-Reads, Reads}
use http_gateway.Proxy.Headers.{remove_hop_by_hop_headers, append_forwarded_for}
use http_gateway.Proxy.Headers.Laws.{forwarded, get_all-append_forwarded_for}
use http_gateway.Proxy.Headers.Nominations.{EndsHere, remove_hop_by_hop_headers-EndsHere}
use http_gateway.Tests.Demo.{demo, Pairs, values, local, text}

abbrev ticket : AdmissionTicket demo
ticket = record { scope = "api"; token = "t-1"; origin = none }

abbrev request : Request demo
request = record {
  method = "GET";
  uri = local "/orders";
  version = 11;
  headers = ("x-breeze-admission-token", "forged") ∷ [];
  body = text "";
  ticket = none;
  recording_fallback = none;
  upgrades = none;
  extensions = 0;
}

from_headers-attach_example :
    (from_headers demo (attach demo ticket request).headers ≡ ok (some ticket))
    × (ticket_scope demo ticket ≡ some "api")
    × (ticket_token demo ticket ≡ some "t-1")
unfolding new_ticket trim is_ascii
from_headers-attach_example =
    from_headers-attach demo "api" "t-1" ticket ticket request refl refl refl

from_headers-Reads_example : Reads demo ("api" ∷ "api" ∷ []) ("t-1" ∷ []) (
    from_headers demo (
      ("x-breeze-admission-scope", "api")
      ∷ ("x-breeze-admission-scope", "api")
      ∷ ("x-breeze-admission-token", "t-1")
      ∷ []))
from_headers-Reads_example = from_headers-Reads demo (
    ("x-breeze-admission-scope", "api")
    ∷ ("x-breeze-admission-scope", "api")
    ∷ ("x-breeze-admission-token", "t-1")
    ∷ [])

-- `Connection: close, X-Trace` ends at this hop, and takes `X-Trace` with it.
abbrev hop : Pairs
hop = ("connection", "close, X-Trace") ∷ ("x-trace", "1") ∷ ("accept", "*/*") ∷ []

remove_hop_by_hop_headers-EndsHere_example :
    (EndsHere demo hop false "x-trace"
      → values (remove_hop_by_hop_headers demo hop false) "x-trace" ≡ [])
    × (¬ EndsHere demo hop false "x-trace"
        → values (remove_hop_by_hop_headers demo hop false) "x-trace" ≡ values hop "x-trace")
remove_hop_by_hop_headers-EndsHere_example =
    remove_hop_by_hop_headers-EndsHere demo hop false "x-trace"

get_all-append_forwarded_for_example :
    values
      (append_forwarded_for demo
        (("x-forwarded-for", "10.0.0.1") ∷ ("x-forwarded-for", "10.0.0.2") ∷ [])
        "10.0.0.9")
      "x-forwarded-for"
    ≡ "10.0.0.1, 10.0.0.9" ∷ []
unfolding forwarded
get_all-append_forwarded_for_example =
    get_all-append_forwarded_for demo
      (("x-forwarded-for", "10.0.0.1") ∷ ("x-forwarded-for", "10.0.0.2") ∷ []) "10.0.0.9"
      "x-forwarded-for"
