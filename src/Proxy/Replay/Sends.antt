-- ===== src/Proxy/Replay/Sends.antt =====
-- Which calls src/proxy/replay.rs makes for a recorded request.
use http_gateway.Prelude.{
  ℕ, String, ◌≡◌, refl, ◌⊎◌, inl, inr, Bool, true, false, Option, none, some, List, [], is_some,
  Bool-cases,
}
use http_gateway.External.Http.{Http}
use http_gateway.Messages.{FallbackProxy, Request}
use http_gateway.Admission.{admission_scope_header, admission_token_header}
use http_gateway.Effects.{ret, ◌>>=◌, Calls, Calls->>=, Calls-mono}
use http_gateway.Awaits.{Await, acquire, service, collect, send, spawn_tunnel, panic}
use http_gateway.Proxy.Headers.{is_upgrade}
use http_gateway.Proxy.Forward.{Attempt, split_upgrade, try_forward_body, or_unavailable}
use http_gateway.Proxy.Forward.Prepared.{IsForwarded}
use http_gateway.Proxy.Forward.Laws.{HasTarget, MayForward, try_forward_body-Calls}
use http_gateway.Proxy.Replay.{
  buffered_request, retry_request, settles, replay, record_and_replay, forward_recording,
}

module _ (H : Http) where
  open H use {get_all}

  -- What the original origin may receive: the request as `retry_request` keeps it, and neither of
  -- the admission headers.
  abbrev pub MayReplay : FallbackProxy H → Request H → String → Await H → Type 0
  MayReplay proxy r peer (send s) =
      IsForwarded H proxy r peer s
      × (get_all s.headers admission_scope_header ≡ [])
      × (get_all s.headers admission_token_header ≡ [])
  MayReplay proxy r peer (spawn_tunnel u d response) =
      MayForward H proxy r peer (spawn_tunnel u d response)
  MayReplay proxy r peer _ = ⊥

  -- The calls of a recorded request: its body is collected; the recorder receives the request with
  -- some payload; the original origin the request that is kept for it, with the same payload.
  abbrev pub MayRecord : FallbackProxy H → FallbackProxy H → Request H → String → Await H → Type 0
  MayRecord proxy fallback r peer e =
      (e ≡ collect r.body)
      ⊎ ((bytes : List ℕ) × (trailers : Option H.Headers) × (MayForward H proxy
              (buffered_request H r bytes trailers) peer e
            ⊎ MayReplay fallback (retry_request H r bytes trailers) peer e))

  retry_request_admission :
      (r : Request H) (bytes : List ℕ) (trailers : Option H.Headers)
      → (get_all (retry_request H r bytes trailers).headers admission_scope_header ≡ [])
        × (get_all (retry_request H r bytes trailers).headers admission_token_header ≡ [])
  unfolding retry_request
  retry_request_admission r bytes trailers =
      (rw (H.get_all-remove, H.get_all-remove) refl, rw (H.get_all-remove) refl)

  replays :
      (fallback : FallbackProxy H) (r : Request H) (bytes : List ℕ) (trailers : Option H.Headers)
      (peer : String) (e : Await H)
      → MayForward H fallback (retry_request H r bytes trailers) peer e
      → MayReplay fallback (retry_request H r bytes trailers) peer e
  unfolding retry_request
  replays fallback r bytes trailers peer (send s) f =
      let (a, b) = retry_request_admission r bytes trailers in
      let (c, d) = f.no_ticket refl a b in (f, c, d)
  replays fallback r bytes trailers peer (spawn_tunnel u d response) f = f
  replays fallback r bytes trailers peer (acquire c) f = f
  replays fallback r bytes trailers peer (service s) f = f
  replays fallback r bytes trailers peer (collect b) f = f
  replays fallback r bytes trailers peer panic f = f

  module _ (proxy fallback : FallbackProxy H) (r : Request H) (peer : String) (bytes : List ℕ)
      (trailers : Option H.Headers) where
    again-Calls :
        (d : Option H.OnUpgrade)
        → is_some fallback.authority ≡ true
        → Calls (MayRecord proxy fallback r peer) (
            try_forward_body H fallback (retry_request H r bytes trailers) peer d >>= λ attempt.
            ret (or_unavailable H attempt))
    again-Calls d own =
        Calls->>= (MayRecord proxy fallback r peer)
          (try_forward_body H fallback (retry_request H r bytes trailers) peer d) _
          (Calls-mono (MayForward H fallback (retry_request H r bytes trailers) peer)
            (MayRecord proxy fallback r peer) _
            (λ e f. inr (bytes, trailers, inr (replays fallback r bytes trailers peer e f)))
            (try_forward_body-Calls H fallback _ peer d (inl own)))
          (λ a. tt)

    replay-Calls :
        (upgrade : Bool) (a : Attempt H)
        → is_some fallback.authority ≡ true
        → Calls
            (MayRecord proxy fallback r peer)
            (replay H fallback (retry_request H r bytes trailers) peer upgrade a)
    unfolding replay
    replay-Calls upgrade (none, d) own = again-Calls d own
    replay-Calls upgrade (some response, d) own = elim (Bool-cases (settles H upgrade response)) [
      | inl done ↦ rw (done, replay) tt
      | inr more ↦ rw (more, replay) (again-Calls d own)
    ]

  record_and_replay-Calls :
      (proxy fallback : FallbackProxy H) (r : Request H) (peer : String) (upgrade : Bool)
      (d : Option H.OnUpgrade) (body : Option (List ℕ × Option H.Headers))
      → HasTarget H proxy r
      → is_some fallback.authority ≡ true
      → Calls
          (MayRecord proxy fallback r peer)
          (record_and_replay H proxy fallback r peer upgrade d body)
  unfolding record_and_replay
  record_and_replay-Calls proxy fallback r peer upgrade d none target own = tt
  record_and_replay-Calls proxy fallback r peer upgrade d (some (bytes, trailers)) target own =
      Calls->>= (MayRecord proxy fallback r peer)
        (try_forward_body H proxy (buffered_request H r bytes trailers) peer d) _
        (Calls-mono (MayForward H proxy (buffered_request H r bytes trailers) peer)
          (MayRecord proxy fallback r peer) _ (λ e f. inr (bytes, trailers, inl f))
          (try_forward_body-Calls H proxy _ peer d target))
        (λ a. replay-Calls proxy fallback r peer bytes trailers upgrade a own)

  -- The request that a recorded request is sent as, without its own marks.
  abbrev pub recorded : Request H → Request H
  recorded r = (split_upgrade H (record r { recording_fallback = none })).1

  -- A recorded request, whose recorder and whose original origin have an address, makes only the
  -- calls that `MayRecord` allows, and does not panic.
  pub forward_recording-Calls :
      (proxy fallback : FallbackProxy H) (r : Request H) (peer : String)
      → r.recording_fallback ≡ some fallback
      → HasTarget H proxy (recorded r)
      → is_some fallback.authority ≡ true
      → Calls (MayRecord proxy fallback (recorded r) peer) (forward_recording H proxy r peer)
  unfolding forward_recording
  forward_recording-Calls proxy fallback r peer e target own =
      rw (e, forward_recording)
        (
          inl (body_kept (Bool-cases (is_upgrade H r.headers))),
          λ body.
              record_and_replay-Calls proxy fallback (recorded r) peer (is_upgrade H r.headers) _
                body target own,
        )
    where
      body_kept :
          ((is_upgrade H r.headers ≡ true) ⊎ (is_upgrade H r.headers ≡ false))
          → ◌≡◌ {A = Await H} (collect r.body) (collect (recorded r).body)
      body_kept (inl u) = rw (u, recorded, split_upgrade) refl
      body_kept (inr u) = rw (u, recorded, split_upgrade) refl
