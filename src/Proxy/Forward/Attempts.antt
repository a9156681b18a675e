-- ===== src/Proxy/Forward/Attempts.antt =====
-- How often src/proxy.rs sends a request, and what becomes of the client's answer.
use http_gateway.Prelude.{
  ℕ, String, ◌≡◌, refl, inl, inr, not, ◌&&◌, true, Option, none, some, Result, ok, err, List, [],
  ◌∷◌, is_some, All, arith, Bool-cases, Result-cases, ◌==◌,
}
use http_gateway.External.Http.{Http, GatewayResponse}
use http_gateway.Messages.{FallbackProxy, Request}
use http_gateway.Effects.{Event, Always, Always->>=}
use http_gateway.Awaits.{
  Await, Answer, acquire, service, collect, send, spawn_tunnel, panic, Sent, answered,
  connect_failed, request_failed,
}
use http_gateway.Proxy.Headers.{is_upgrade}
use http_gateway.Proxy.Forward.{
  ticket_origin, target_authority, or_slash, prepare_request, send_prepared, send_to,
  try_forward_body, Attempt, relay_or_strip, hand_over, after_send, upstream_unavailable,
  switching_protocols, error_response, without_tasks, or_unavailable, split_upgrade, forward,
}
use http_gateway.Proxy.Forward.Prepared.{IsForwarded, prepare_request-IsForwarded}

module _ (H : Http) where
  -- The same message, with the same ticket.
  pub record IsSame (r q : Request H) : Type 0 where
    pub method : q.method ≡ r.method
    pub uri : q.uri ≡ r.uri
    pub version : q.version ≡ r.version
    pub headers : q.headers ≡ r.headers
    pub body : q.body ≡ r.body
    pub ticket : q.ticket ≡ r.ticket

  pub split_upgrade-IsSame : (r : Request H) → IsSame r (split_upgrade H r).1
  split_upgrade-IsSame r = elim (Bool-cases (is_upgrade H r.headers)) [
    | inl u ↦
        rw (u, split_upgrade)
          (record {
            method = refl;
            uri = refl;
            version = refl;
            headers = refl;
            body = refl;
            ticket = refl;
          })
    | inr u ↦
        rw (u, split_upgrade)
          (record {
            method = refl;
            uri = refl;
            version = refl;
            headers = refl;
            body = refl;
            ticket = refl;
          })
  ]

  -- An accepted upgrade is handed to a task.
  abbrev IsTunnel : GatewayResponse H → Await H → Type 0
  IsTunnel y (spawn_tunnel u d z) = (z ≡ y) × (y.status ≡ 101)
  IsTunnel y _ = ⊥

  -- The events of one attempt to forward a request, and its response, `none` where the connection
  -- failed: with no origin there is nothing to send, and the status is 503; where the address cannot
  -- be built for the origin nothing is sent, and where the request fails later it was sent, and the
  -- status is 502; where the origin answered, the status is the answer's.
  pub data Tried (proxy : FallbackProxy H) (r : Request H) (peer : String)
      (es : List (Event (Answer H))) (o : Option (GatewayResponse H)) : Type 0 where
    nowhere :
        (x : GatewayResponse H)
        → proxy.authority ≡ none
        → ticket_origin H r.ticket ≡ none
        → es ≡ []
        → o ≡ some x
        → x.status ≡ 503
        → Tried proxy r peer es o
    malformed :
        (a text : String) (x : GatewayResponse H)
        → target_authority H proxy r ≡ some a
        → H.build_uri proxy.scheme a (or_slash H (H.uri_path_and_query r.uri)) ≡ err text
        → es ≡ []
        → o ≡ some x
        → x.status ≡ 502
        → Tried proxy r peer es o
    unreachable :
        (s : Request H)
        → IsForwarded H proxy r peer s
        → es ≡ (send s, connect_failed) ∷ []
        → o ≡ none
        → Tried proxy r peer es o
    broken :
        (s : Request H) (x : GatewayResponse H)
        → IsForwarded H proxy r peer s
        → es ≡ (send s, request_failed) ∷ []
        → o ≡ some x
        → x.status ≡ 502
        → Tried proxy r peer es o
    replied :
        (s : Request H) (y x : GatewayResponse H) (rest : List (Event (Answer H)))
        → IsForwarded H proxy r peer s
        → es ≡ (send s, answered y) ∷ rest
        → All (λ ev. IsTunnel y ev.0) rest
        → o ≡ some x
        → x.status ≡ y.status
        → Tried proxy r peer es o

  module _ (proxy : FallbackProxy H) (r : Request H) (peer : String) where
    abbrev pub AfterTry : List (Event (Answer H)) → Attempt H → Type 0
    AfterTry es a = Tried proxy r peer es a.0

    hand_over-AfterTry :
        (s : Request H) (u : Option ℕ) (d : Option H.OnUpgrade) (y : GatewayResponse H)
        → IsForwarded H proxy r peer s
        → y.status ≡ 101
        → Always AfterTry ((send s, answered y) ∷ []) (hand_over H u d y)
    hand_over-AfterTry s u none y f e = replied s y y [] f refl tt refl refl
    hand_over-AfterTry s u (some handle) y f e =
        λ v. replied s y y ((spawn_tunnel u handle y, v) ∷ []) f refl ((refl, e), tt) refl refl

    after_send-AfterTry :
        (s : Request H) (u : Option ℕ) (d : Option H.OnUpgrade) (sent : Sent H)
        → IsForwarded H proxy r peer s
        → Always AfterTry ((send s, sent) ∷ []) (after_send H u d sent)
    unfolding upstream_unavailable error_response
    after_send-AfterTry s u d connect_failed f = unreachable s f refl refl
    after_send-AfterTry s u d request_failed f = broken s _ f refl refl refl
    after_send-AfterTry s u d (answered y) f = elim (Bool-cases (y.status == switching_protocols)) [
      | inl switched ↦
          rw (after_send, relay_or_strip, switched) (hand_over-AfterTry s u d y f (ground arith))
      | inr other ↦ rw (after_send, relay_or_strip, other) (replied s y _ [] f refl tt refl refl)
    ]

    send_prepared-AfterTry :
        (d : Option H.OnUpgrade) (a : String) (p : Result String (Request H))
        → target_authority H proxy r ≡ some a
        → prepare_request H proxy r peer (is_upgrade H r.headers) a ≡ p
        → Always AfterTry [] (send_prepared H d p)
    unfolding prepare_request error_response
    send_prepared-AfterTry d a (err text) t e =
        elim (Result-cases (H.build_uri proxy.scheme a (or_slash H (H.uri_path_and_query r.uri)))) [
          | inr (x, bad) ↦ malformed a x _ t bad refl refl refl
          | inl (u, built) ↦ absurd (ground arith)
        ]
    send_prepared-AfterTry d a (ok q) t e = λ sent.
        after_send-AfterTry (without_tasks H q) q.upgrades d sent
          (prepare_request-IsForwarded H proxy r q peer a t e)

    send_to-AfterTry :
        (d : Option H.OnUpgrade) (target : Option String)
        → target_authority H proxy r ≡ target
        → Always AfterTry [] (send_to H proxy r peer d target)
    send_to-AfterTry d none t = λ never. absurd never
    send_to-AfterTry d (some a) t = send_prepared-AfterTry d a _ t refl

    both_absent :
        {A B : Type 0} (o : Option A) (q : Option B)
        → (not (is_some o) && not (is_some q)) ≡ true
        → (o ≡ none) × (q ≡ none)
    both_absent none none e = (refl, refl)
    both_absent none (some b) e = cc
    both_absent (some a) q e = cc

    -- Whatever is answered, one attempt sends at most one request, prepared for the origin. With no
    -- origin it sends none, and answers 503; where the address cannot be built it sends none, and
    -- answers 502; where the connection fails, there is no response; where the request fails later,
    -- it answers 502; and where the origin responds, the result has the status of that response.
    pub try_forward_body-AfterTry :
        (d : Option H.OnUpgrade) → Always AfterTry [] (try_forward_body H proxy r peer d)
    unfolding try_forward_body error_response
    try_forward_body-AfterTry d =
        elim (Bool-cases
          (not (is_some proxy.authority) && not (is_some (ticket_origin H r.ticket)))) [
            | inl absent ↦
                let (own, given) = both_absent proxy.authority (ticket_origin H r.ticket) absent in
                rw (absent, try_forward_body) (nowhere _ own given refl refl refl)
            | inr somewhere ↦ rw (somewhere, try_forward_body) (send_to-AfterTry d _ refl)
          ]

  tunnels-All :
      (P : Await H → Type 0) (y : GatewayResponse H) (es : List (Event (Answer H)))
      → ((u : Option ℕ) (d : H.OnUpgrade) (z : GatewayResponse H) → P (spawn_tunnel u d z))
      → All (λ ev. IsTunnel y ev.0) es
      → All (λ ev. P ev.0) es
  tunnels-All P y [] t h = tt
  tunnels-All P y ((spawn_tunnel u d z, v) ∷ es) t h = (t u d z, tunnels-All P y es t h.1)
  tunnels-All P y ((acquire c, v) ∷ es) t h = absurd h.0
  tunnels-All P y ((service s, v) ∷ es) t h = absurd h.0
  tunnels-All P y ((send s, v) ∷ es) t h = absurd h.0
  tunnels-All P y ((collect b, v) ∷ es) t h = absurd h.0
  tunnels-All P y ((panic, v) ∷ es) t h = absurd h.0

  -- An attempt only sends requests prepared for the origin and hands tunnels over.
  pub Tried-All :
      (P : Await H → Type 0) (proxy : FallbackProxy H) (r : Request H) (peer : String)
      (es : List (Event (Answer H))) (o : Option (GatewayResponse H))
      → ((s : Request H) → IsForwarded H proxy r peer s → P (send s))
      → ((u : Option ℕ) (d : H.OnUpgrade) (z : GatewayResponse H) → P (spawn_tunnel u d z))
      → Tried proxy r peer es o
      → All (λ ev. P ev.0) es
  Tried-All P proxy r peer es o s t (nowhere x own given e a d) = rw e tt
  Tried-All P proxy r peer es o s t (malformed authority text x to bad e a d) = rw e tt
  Tried-All P proxy r peer es o s t (unreachable q f e a) = rw e (s q f, tt)
  Tried-All P proxy r peer es o s t (broken q x f e a d) = rw e (s q f, tt)
  Tried-All P proxy r peer es o s t (replied q y x rest f e h a d) =
      rw e (s q f, tunnels-All P y rest t h)

  -- The response to the client after an attempt: 502 where there is none.
  abbrev pub Answers : Option (GatewayResponse H) → GatewayResponse H → Type 0
  Answers none x = x.status ≡ 502
  Answers (some y) x = x ≡ y

  pub or_unavailable-Answers :
      (b : Option (GatewayResponse H)) (d : Option H.OnUpgrade)
      → Answers b (or_unavailable H (b, d))
  unfolding upstream_unavailable error_response
  or_unavailable-Answers none d = refl
  or_unavailable-Answers (some y) d = refl

  -- A request is forwarded in one attempt, and `x` is the response.
  pub record IsProxied (proxy : FallbackProxy H) (r : Request H) (peer : String)
      (es : List (Event (Answer H))) (x : GatewayResponse H) : Type 0 where
    pub message : Request H
    pub result : Option (GatewayResponse H)
    pub same : IsSame r message
    pub tried : Tried proxy message peer es result
    pub answer : Answers result x

  pub forward-IsProxied :
      (proxy : FallbackProxy H) (r : Request H) (peer : String)
      → Always (IsProxied proxy r peer) [] (forward H proxy r peer)
  unfolding forward
  forward-IsProxied proxy r peer =
      Always->>= (AfterTry proxy (split_upgrade H r).1 peer) (IsProxied proxy r peer) []
        (try_forward_body H proxy (split_upgrade H r).1 peer (split_upgrade H r).0) _
        (try_forward_body-AfterTry proxy (split_upgrade H r).1 peer (split_upgrade H r).0)
        (λ es a t. record {
          message = (split_upgrade H r).1;
          result = a.0;
          same = split_upgrade-IsSame r;
          tried = t;
          answer = or_unavailable-Answers a.0 a.1;
        })
