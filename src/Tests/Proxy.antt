-- ===== src/Tests/Proxy.antt =====
-- Runs of src/proxy.rs and src/proxy/replay.rs.
use http_gateway.Prelude.{◌≡◌, refl, ◌↔◌, inr, arith, true, none, some, [], ◌∷◌}
use http_gateway.Messages.{AdmissionTicket, FallbackProxy, Request}
use http_gateway.Effects.{Always, Calls}
use http_gateway.Proxy.Forward.{from_admission, try_forward_body}
use http_gateway.Proxy.Forward.Laws.{HasTarget, MayForward, try_forward_body-Calls}
use http_gateway.Proxy.Forward.Attempts.{AfterTry, try_forward_body-AfterTry}
use http_gateway.Proxy.Replay.{forward_recording}
use http_gateway.Proxy.Replay.Body.{
  frames, replay_body, payload, all_trailers, is_end_stream, size_hint, frames-replay_body,
}
use http_gateway.Proxy.Replay.Laws.{Recorded, forward_recording-Ends}
use http_gateway.Tests.Demo.{demo, Pairs, local, absolute, text}

abbrev ticket : AdmissionTicket demo
ticket = record {
  scope = "api";
  token = "t-1";
  origin = some (absolute "http" "recorder.test" "/");
}

abbrev own : FallbackProxy demo
own = record { scheme = "http"; authority = some "origin.test" }

abbrev request : Request demo
request = record {
  method = "POST";
  uri = local "/orders";
  version = 11;
  headers = ("host", "shop.test") ∷ ("connection", "close") ∷ [];
  body = text "order";
  ticket = some ticket;
  recording_fallback = some own;
  upgrades = none;
  extensions = 0;
}

recorder-HasTarget : HasTarget demo (from_admission demo) request
recorder-HasTarget = inr (λ u e. ground arith)

try_forward_body-Calls_example :
    Calls
      (MayForward demo (from_admission demo) request "10.0.0.1")
      (try_forward_body demo (from_admission demo) request "10.0.0.1" none)
try_forward_body-Calls_example =
    try_forward_body-Calls demo (from_admission demo) request "10.0.0.1" none recorder-HasTarget

try_forward_body-AfterTry_example :
    Always
      (AfterTry demo (from_admission demo) request "10.0.0.1")
      []
      (try_forward_body demo (from_admission demo) request "10.0.0.1" none)
try_forward_body-AfterTry_example =
    try_forward_body-AfterTry demo (from_admission demo) request "10.0.0.1" none

forward_recording-Ends_example :
    Always
      (Recorded demo (from_admission demo) own request "10.0.0.1")
      []
      (forward_recording demo (from_admission demo) request "10.0.0.1")
forward_recording-Ends_example =
    forward_recording-Ends demo (from_admission demo) own request "10.0.0.1" refl

abbrev trailers : Pairs
trailers = ("checksum", "1") ∷ []

frames-replay_body_example :
    let b = replay_body (1 ∷ 2 ∷ []) (some trailers) in
    let fs = frames 3 b in
    (payload fs ≡ 1 ∷ 2 ∷ [])
    × (all_trailers fs ≡ trailers ∷ [])
    × ((is_end_stream b ≡ true) ↔ (fs ≡ []))
    × (size_hint b ≡ none)
frames-replay_body_example = frames-replay_body 0 (1 ∷ 2 ∷ []) (some trailers)
