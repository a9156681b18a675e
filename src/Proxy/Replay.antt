-- ===== src/Proxy/Replay.antt =====
-- src/proxy/replay.rs: a recorded request is sent to the recorder, and at most once more to the
-- original origin.
pub mod Body
pub mod Laws
pub mod Sends
use http_gateway.Prelude.{
  ℕ, String, Bool, true, false, not, ◌&&◌, Option, none, some, List, if◌then◌else◌, ◌==◌,
}
use http_gateway.External.Http.{Http, Response, GatewayResponse}
use http_gateway.Messages.{FallbackProxy, Request}
use http_gateway.Admission.{admission_scope_header, admission_token_header}
use http_gateway.Effects.{Prog, ret, call, ◌>>=◌}
use http_gateway.Awaits.{Answer, collect}
use http_gateway.Proxy.Headers.{is_upgrade}
use http_gateway.Proxy.Forward.{
  Attempt, error_response, upstream_unavailable, or_unavailable, split_upgrade, try_forward_body,
  forward,
}

abbrev pub bad_request : ℕ
bad_request = 400

abbrev pub not_found : ℕ
not_found = 404

module _ (H : Http) where
  open H use {Headers}

  -- The request that goes to the recorder: the original one, with its body in memory.
  abbrev pub buffered_request : Request H → List ℕ → Option Headers → Request H
  buffered_request r bytes trailers = record r { body = H.buffered bytes trailers }

  -- The request kept for the original origin: method, address, version and headers of the first,
  -- no ticket, the same payload, and of the extensions only the task handle.
  unfoldable pub retry_request : Request H → List ℕ → Option Headers → Request H
  retry_request r bytes trailers = record {
    method = r.method;
    uri = r.uri;
    version = r.version;
    headers = H.remove (H.remove r.headers admission_scope_header) admission_token_header;
    body = H.buffered bytes trailers;
    ticket = none;
    recording_fallback = none;
    upgrades = r.upgrades;
    extensions = H.no_extensions;
  }

  -- Whether the first attempt answers the client.
  abbrev pub settles : Bool → GatewayResponse H → Bool
  settles upgrade response = not (not upgrade && response.status == not_found)

  unfoldable pub replay :
      FallbackProxy H → Request H → String → Bool → Attempt H → Prog (Answer H) (GatewayResponse H)
  replay fallback retry peer upgrade (first, downstream) =
      let again = try_forward_body H fallback retry peer downstream >>= λ attempt.
      ret (or_unavailable H attempt) in
      elim first [
        | none ↦ again
        | some response ↦ if settles upgrade response then ret response else again
      ]

  unfoldable pub record_and_replay :
      FallbackProxy H
      → FallbackProxy H
      → Request H
      → String
      → Bool
      → Option H.OnUpgrade
      → Option (List ℕ × Option Headers)
      → Prog (Answer H) (GatewayResponse H)
  unfolding replay
  record_and_replay proxy fallback r peer upgrade downstream none =
      ret (error_response H bad_request "failed to read request body")
  record_and_replay proxy fallback r peer upgrade downstream (some (bytes, trailers)) =
      try_forward_body H proxy (buffered_request r bytes trailers) peer downstream
      >>= replay fallback (retry_request r bytes trailers) peer upgrade

  unfoldable pub forward_recording :
      FallbackProxy H → Request H → String → Prog (Answer H) (GatewayResponse H)
  unfolding record_and_replay
  forward_recording proxy r peer = elim r.recording_fallback [
    | none ↦ forward H proxy r peer
    | some fallback ↦
        let (downstream, request) = split_upgrade H (record r { recording_fallback = none }) in
        call (collect r.body)
          (record_and_replay proxy fallback request peer (is_upgrade H r.headers) downstream)
  ]
