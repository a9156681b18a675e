-- ===== src/Proxy/Waits.antt =====
-- How often src/proxy.rs and src/proxy/replay.rs wait.
use http_gateway.Prelude.{
  ℕ, String, inl, inr, Bool, Option, none, some, Result, ok, err, List, arith, is_some, not, ◌&&◌,
  ◌==◌, Option-cases, Bool-cases,
}
use http_gateway.External.Http.{Http, GatewayResponse}
use http_gateway.Messages.{Request, FallbackProxy}
use http_gateway.Effects.{ret, ◌>>=◌, Within, Within-mono, Within->>=}
use http_gateway.Awaits.{Sent, answered, connect_failed, request_failed}
use http_gateway.Proxy.Forward.{
  Attempt, ticket_origin, hand_over, relay_or_strip, after_send, send_prepared, send_to,
  try_forward_body, split_upgrade, forward, or_unavailable, switching_protocols,
}
use http_gateway.Proxy.Replay.Sends.{recorded}
use http_gateway.Proxy.Replay.{
  buffered_request, retry_request, replay, settles, record_and_replay, forward_recording,
}

module _ (H : Http) where
  hand_over-Within :
      (u : Option ℕ) (d : Option H.OnUpgrade) (response : GatewayResponse H)
      → Within 1 (hand_over H u d response)
  hand_over-Within u none response = tt
  hand_over-Within u (some d) response = (omega arith, λ a. tt)

  relay_or_strip-Within :
      (u : Option ℕ) (d : Option H.OnUpgrade) (response : GatewayResponse H)
      → Within 1 (relay_or_strip H u d response)
  relay_or_strip-Within u d response = elim (Bool-cases (response.status == switching_protocols)) [
    | inl switched ↦ rw switched (hand_over-Within u d response)
    | inr other ↦ rw other tt
  ]

  after_send-Within :
      (u : Option ℕ) (d : Option H.OnUpgrade) (a : Sent H) → Within 1 (after_send H u d a)
  after_send-Within u d (answered response) = relay_or_strip-Within u d response
  after_send-Within u d connect_failed = tt
  after_send-Within u d request_failed = tt

  send_prepared-Within :
      (d : Option H.OnUpgrade) (p : Result String (Request H)) → Within 2 (send_prepared H d p)
  send_prepared-Within d (err text) = tt
  send_prepared-Within d (ok r) = (omega arith, λ a. after_send-Within r.upgrades d a)

  send_to-Within :
      (proxy : FallbackProxy H) (r : Request H) (peer : String) (d : Option H.OnUpgrade)
      (a : Option String)
      → Within 2 (send_to H proxy r peer d a)
  send_to-Within proxy r peer d none = (omega arith, λ never. absurd never)
  send_to-Within proxy r peer d (some a) = send_prepared-Within d _

  -- An attempt at an origin: the request, and a tunnel.
  try_forward_body-Within :
      (proxy : FallbackProxy H) (r : Request H) (peer : String) (d : Option H.OnUpgrade)
      → Within 2 (try_forward_body H proxy r peer d)
  unfolding try_forward_body
  try_forward_body-Within proxy r peer d =
      elim (Bool-cases
        (not (is_some proxy.authority) && not (is_some (ticket_origin H r.ticket)))) [
          | inl nowhere ↦ rw (nowhere, try_forward_body) tt
          | inr somewhere ↦ rw (somewhere, try_forward_body) (send_to-Within proxy r peer d _)
        ]

  pub forward-Within :
      (proxy : FallbackProxy H) (r : Request H) (peer : String) → Within 2 (forward H proxy r peer)
  unfolding forward
  forward-Within proxy r peer =
      Within->>= 2 0 (try_forward_body H proxy (split_upgrade H r).1 peer (split_upgrade H r).0) _
        (try_forward_body-Within proxy (split_upgrade H r).1 peer (split_upgrade H r).0) (λ a. tt)

  retried-Within :
      (fallback : FallbackProxy H) (q : Request H) (peer : String) (d : Option H.OnUpgrade)
      → Within 2
          (try_forward_body H fallback q peer d >>= λ attempt. ret (or_unavailable H attempt))
  retried-Within fallback q peer d =
      Within->>= 2 0 (try_forward_body H fallback q peer d) _
        (try_forward_body-Within fallback q peer d) (λ a. tt)

  replay-Within :
      (fallback : FallbackProxy H) (q : Request H) (peer : String) (upgrade : Bool) (a : Attempt H)
      → Within 2 (replay H fallback q peer upgrade a)
  unfolding replay
  replay-Within fallback q peer upgrade (none, d) = retried-Within fallback q peer d
  replay-Within fallback q peer upgrade (some response, d) =
      elim (Bool-cases (settles H upgrade response)) [
        | inl done ↦ rw (done, replay) tt
        | inr again ↦ rw (again, replay) (retried-Within fallback q peer d)
      ]

  record_and_replay-Within :
      (proxy fallback : FallbackProxy H) (r : Request H) (peer : String) (upgrade : Bool)
      (d : Option H.OnUpgrade) (body : Option (List ℕ × Option H.Headers))
      → Within 4 (record_and_replay H proxy fallback r peer upgrade d body)
  unfolding record_and_replay
  record_and_replay-Within proxy fallback r peer upgrade d none = tt
  record_and_replay-Within proxy fallback r peer upgrade d (some (bytes, trailers)) =
      Within->>= 2 2 (try_forward_body H proxy (buffered_request H r bytes trailers) peer d) _
        (try_forward_body-Within proxy (buffered_request H r bytes trailers) peer d)
        (λ a. replay-Within fallback (retry_request H r bytes trailers) peer upgrade a)

  -- The body, an attempt at the recorder, and one at the original origin.
  pub forward_recording-Within :
      (proxy : FallbackProxy H) (r : Request H) (peer : String)
      → Within 5 (forward_recording H proxy r peer)
  unfolding forward_recording
  forward_recording-Within proxy r peer = elim (Option-cases r.recording_fallback) [
    | inl never ↦
        rw (never, forward_recording)
          (Within-mono 2 5 (forward H proxy r peer) (forward-Within proxy r peer) (omega arith))
    | inr (fallback, recorded) ↦
        rw (recorded, forward_recording)
          (omega arith, λ body. record_and_replay-Within proxy fallback _ peer _ _ body)
  ]
