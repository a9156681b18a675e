-- ===== src/Gateway/Endings.antt =====
-- A gateway of src/gateway.rs whose service is an `OriginService` answers every request, after few waits.
use http_gateway.Prelude.{
  ℕ, ◌+◌, ◌≤◌, String, ◌≡◌, subst, inl, inr, Bool, true, false, Option, none, some, ok, arith,
  is_some, Option-cases, Result-cases,
}
use http_gateway.External.Http.{Http}
use http_gateway.External.Router.{Router}
use http_gateway.Messages.{Request, FallbackProxy}
use http_gateway.Admission.{ProviderRef, get_provider}
use http_gateway.Effects.{Calls, Calls->>=, Calls-mono, Within, Within-mono, Within->>=}
use http_gateway.Awaits.{Await, acquire, service, collect, send, spawn_tunnel, panic}
use http_gateway.Config.{AdmissionRule}
use http_gateway.Proxy.Forward.{split_upgrade, forward, new_proxy}
use http_gateway.Proxy.Waits.{forward-Within, forward_recording-Within}
use http_gateway.Proxy.Forward.Laws.{MayForward, forward-Calls}
use http_gateway.Proxy.Replay.Sends.{MayRecord, recorded, forward_recording-Calls}
use http_gateway.Gateway.Building.{IsBuilt, new_proxy-authority}
use http_gateway.Gateway.Panics.{IsCalm, IsHanded, forwarded-IsCalm, handle-IsCalm}
use http_gateway.Gateway.Origins.{new_origin}
use http_gateway.Proxy.Replay.{forward_recording}
use http_gateway.Gateway.{
  MatchedService, OriginService, origin_call, Gateway, sanitize, preflight_of, rule_for, admit_by,
  admit_rule, admit, dispatch, handle_sanitized, handle,
}

module _ (H : Http) where
  new_origin-authority :
      (R : Router) (u : H.Uri) (s : OriginService H)
      → new_origin H u ≡ ok s
      → is_some s.origin.authority ≡ true
  new_origin-authority R u s e = elim (Result-cases (new_proxy H u)) [
    | inr (x, bad) ↦ absurd (ground arith)
    | inl (p, made) ↦
        let same : ◌≡◌ {A = OriginService H} (record { origin = p; response_cors = false }) s =
          ground arith in
        subst (λ (x : OriginService H). is_some x.origin.authority ≡ true) same
          (new_proxy-authority H R u p made)
  ]

  origin_call-Within :
      (s : OriginService H) (r : Request H) (peer : String) → Within 5 (origin_call H s r peer)
  unfolding origin_call
  origin_call-Within s r peer =
      Within->>= 5 0 (forward_recording H s.origin r peer) _
        (forward_recording-Within H s.origin r peer) (λ a. tt)

  module _ (R : Router) where
    recorded-IsCalm :
        (proxy fallback : FallbackProxy H) (r : Request H) (peer : String) (e : Await H)
        → MayRecord H proxy fallback r peer e
        → IsCalm H R e
    recorded-IsCalm proxy fallback r peer (send s) f = tt
    recorded-IsCalm proxy fallback r peer (acquire c) f = tt
    recorded-IsCalm proxy fallback r peer (service s) f = tt
    recorded-IsCalm proxy fallback r peer (collect b) f = tt
    recorded-IsCalm proxy fallback r peer (spawn_tunnel u d response) f = tt
    recorded-IsCalm proxy fallback r peer panic (inl e) = cc
    recorded-IsCalm proxy fallback r peer panic (inr (bytes, trailers, inl f)) = f
    recorded-IsCalm proxy fallback r peer panic (inr (bytes, trailers, inr f)) = f

    module _ (g : Gateway H R) (b : IsBuilt H R g) (s : OriginService H)
        (own : is_some s.origin.authority ≡ true) where
      forward_recording-IsCalm :
          (r : Request H) (peer : String)
          → IsHanded H R g b r
          → Calls (IsCalm H R) (forward_recording H s.origin r peer)
      unfolding forward_recording
      forward_recording-IsCalm r peer (inl e) =
          rw (e, forward_recording)
            (Calls-mono (MayForward H s.origin (split_upgrade H r).1 peer) (IsCalm H R)
              (forward H s.origin r peer) (forwarded-IsCalm H R s.origin (split_upgrade H r).1 peer)
              (forward-Calls H s.origin r peer own))
      forward_recording-IsCalm r peer (inr e) =
          Calls-mono (MayRecord H s.origin g.fallback (recorded H r) peer) (IsCalm H R)
            (forward_recording H s.origin r peer)
            (recorded-IsCalm s.origin g.fallback (recorded H r) peer)
            (forward_recording-Calls H s.origin g.fallback r peer e (inl own) b.has_origin)

      origin_call-IsCalm :
          (r : Request H) (peer : String)
          → IsHanded H R g b r
          → Calls (IsCalm H R) (origin_call H s r peer)
      unfolding origin_call
      origin_call-IsCalm r peer h =
          Calls->>= (IsCalm H R) (forward_recording H s.origin r peer) _
            (forward_recording-IsCalm r peer h) (λ a. tt)

    module _ (g : Gateway H R) (matched : MatchedService H) (most : ℕ) (enough : 2 ≤ most)
        (ends : (q : Request H) (peer : String) → Within most (matched q peer)) where
      dispatch-Within :
          (peer : String) (d : Bool × Request H) → Within most (dispatch H R g matched peer d)
      dispatch-Within peer (true, q) = ends q peer
      dispatch-Within peer (false, q) =
          Within-mono 2 most (forward H g.fallback q peer) (forward-Within H g.fallback q peer)
            enough

      admit_rule-Within :
          (r : Request H) (o : Option (Option (AdmissionRule × Bool)))
          → Within 1 (admit_rule H R g r o)
      admit_rule-Within r none = (omega arith, λ never. absurd never)
      admit_rule-Within r (some none) = tt
      admit_rule-Within r (some (some (rule, global))) =
          admit_by-Within rule global (get_provider g.admission rule.provider)
        where
          admit_by-Within :
              (rule : AdmissionRule) (global : Bool) (p : Option ProviderRef)
              → Within 1 (admit_by H R g rule global r p)
          admit_by-Within rule global none = (omega arith, λ never. absurd never)
          admit_by-Within rule global (some p) = (omega arith, λ a. tt)

      handle_sanitized-Within :
          (r : Request H) (peer : String)
          → Within (1 + most) (handle_sanitized H R g matched peer r)
      unfolding handle_sanitized admit
      handle_sanitized-Within r peer =
          Within->>= 1 most (admit H R g r) _ (admit_rule-Within r (rule_for H R g r)) (λ d.
            Within-mono (most + 0) most _
              (Within->>= most 0 (dispatch H R g matched peer d) _ (dispatch-Within peer d)
                (λ a. tt))
              (omega arith))

      handle-Within :
          (r : Request H) (peer : String) → Within (1 + most) (handle H R g matched r peer)
      unfolding handle
      handle-Within r peer = elim (Option-cases (preflight_of H R g.cors (sanitize H R r))) [
        | inr (p, done) ↦ rw (done, handle) tt
        | inl open_to ↦ rw (open_to, handle) (handle_sanitized-Within (sanitize H R r) peer)
      ]

    -- A gateway that `IsBuilt`, with a service that `OriginService::new` accepts, ends the handling of
    -- every request that arrives unrecorded, whatever is answered: after six waits at most, for an
    -- admission, the body, and a request and a tunnel at each of two origins, and without a panic.
    pub handle-Ends :
        (g : Gateway H R) (u : H.Uri) (s : OriginService H) (r : Request H) (peer : String)
        → IsBuilt H R g
        → new_origin H u ≡ ok s
        → r.recording_fallback ≡ none
        → Within 6 (handle H R g (origin_call H s) r peer)
          × Calls (IsCalm H R) (handle H R g (origin_call H s) r peer)
    handle-Ends g u s r peer b made unrecorded = (
      handle-Within g (origin_call H s) 5 (omega arith) (origin_call-Within s) r peer,
      handle-IsCalm H R g b (origin_call H s)
          (origin_call-IsCalm g b s (new_origin-authority R u s made)) r peer unrecorded,
    )
