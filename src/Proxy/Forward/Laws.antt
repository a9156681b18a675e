-- ===== src/Proxy/Forward/Laws.antt =====
-- Which calls src/proxy.rs makes for an attempt at an origin.
use http_gateway.Prelude.{
  ℕ, String, ◌≡◌, refl, ◌⊎◌, inl, inr, true, false, not, ◌&&◌, Option, none, some, Result, ok, err,
  arith, is_some, Option-cases, Bool-cases, ◌==◌,
}
use http_gateway.External.Http.{Http, GatewayResponse}
use http_gateway.Messages.{FallbackProxy, Request}
use http_gateway.Effects.{Calls, Calls->>=}
use http_gateway.Awaits.{Await, send, spawn_tunnel, Sent, answered, connect_failed, request_failed}
use http_gateway.Proxy.Forward.{
  or_else, after_send, hand_over, ticket_origin, origin_authority, target_authority, send_prepared,
  send_to, try_forward_body, forward, without_tasks, relay_or_strip, split_upgrade,
  switching_protocols,
}
use http_gateway.Proxy.Forward.Prepared.{IsForwarded, prepare_request-IsForwarded}

module _ (H : Http) where
  -- The origins that a proxy may be asked for: its own, or a ticket's with an address.
  abbrev pub HasTarget : FallbackProxy H → Request H → Type 0
  HasTarget proxy r =
      (is_some proxy.authority ≡ true)
      ⊎ ((u : H.Uri) → ticket_origin H r.ticket ≡ some u → is_some (H.uri_authority u) ≡ true)

  -- What the proxy does for a request: it sends what `IsForwarded` allows, or hands an accepted
  -- upgrade to a task.
  abbrev pub MayForward : FallbackProxy H → Request H → String → Await H → Type 0
  MayForward proxy r peer (send s) = IsForwarded H proxy r peer s
  MayForward proxy r peer (spawn_tunnel u d response) = response.status ≡ switching_protocols
  MayForward proxy r peer _ = ⊥

  target_by_parts :
      (own : Option String) (o : Option H.Uri)
      → ((is_some own ≡ true) ⊎ ((u : H.Uri) → o ≡ some u → is_some (H.uri_authority u) ≡ true))
      → (not (is_some own) && not (is_some o)) ≡ false
      → (a : String) × (or_else H (origin_authority H o) own ≡ some a)
  target_by_parts none none h e = cc
  target_by_parts (some a) none h e = (a, refl)
  target_by_parts own (some u) h e = elim (Option-cases (H.uri_authority u)) [
    | inr (a, found) ↦ (a, rw (found, or_else) refl)
    | inl missing ↦ elim h [
      | inr all ↦ absurd (let bad : false ≡ true = rw missing at (all u refl) in cc)
      | inl own_set ↦ elim (Option-cases own) [
        | inl no_own ↦ absurd (let bad : false ≡ true = rw no_own at own_set in cc)
        | inr (a, has) ↦ (a, rw (missing, or_else) has)
      ]
    ]
  ]

  target_of_HasTarget :
      (proxy : FallbackProxy H) (r : Request H)
      → HasTarget proxy r
      → (not (is_some proxy.authority) && not (is_some (ticket_origin H r.ticket))) ≡ false
      → (a : String) × (target_authority H proxy r ≡ some a)
  unfolding target_authority
  target_of_HasTarget proxy r h e = target_by_parts proxy.authority (ticket_origin H r.ticket) h e

  hand_over-Calls :
      (proxy : FallbackProxy H) (r : Request H) (peer : String) (u : Option ℕ)
      (d : Option H.OnUpgrade) (response : GatewayResponse H)
      → response.status ≡ switching_protocols
      → Calls (MayForward proxy r peer) (hand_over H u d response)
  hand_over-Calls proxy r peer u none response e = tt
  hand_over-Calls proxy r peer u (some handle) response e = (e, λ _. tt)

  relay_or_strip-Calls :
      (proxy : FallbackProxy H) (r : Request H) (peer : String) (u : Option ℕ)
      (d : Option H.OnUpgrade) (response : GatewayResponse H)
      → Calls (MayForward proxy r peer) (relay_or_strip H u d response)
  relay_or_strip-Calls proxy r peer u d response =
      elim (Bool-cases (response.status == switching_protocols)) [
        | inr other ↦ rw (relay_or_strip, other) tt
        | inl switched ↦
            rw (relay_or_strip, switched) (hand_over-Calls proxy r peer u d response (ground arith))
      ]

  sent-Calls :
      (proxy : FallbackProxy H) (r q : Request H) (peer : String) (d : Option H.OnUpgrade)
      (sent : Sent H)
      → Calls (MayForward proxy r peer) (after_send H q.upgrades d sent)
  sent-Calls proxy r q peer d (answered response) =
      relay_or_strip-Calls proxy r peer q.upgrades d response
  sent-Calls proxy r q peer d connect_failed = tt
  sent-Calls proxy r q peer d request_failed = tt

  send_prepared-Calls :
      (proxy : FallbackProxy H) (r : Request H) (peer : String) (d : Option H.OnUpgrade)
      (p : Result String (Request H))
      → ((q : Request H) → p ≡ ok q → IsForwarded H proxy r peer (without_tasks H q))
      → Calls (MayForward proxy r peer) (send_prepared H d p)
  send_prepared-Calls proxy r peer d (err text) h = tt
  send_prepared-Calls proxy r peer d (ok q) h = (h q refl, sent-Calls proxy r q peer d)

  -- With an origin to send to, the proxy makes no call but those that `MayForward` allows, and does
  -- not panic.
  pub try_forward_body-Calls :
      (proxy : FallbackProxy H) (r : Request H) (peer : String) (d : Option H.OnUpgrade)
      → HasTarget proxy r
      → Calls (MayForward proxy r peer) (try_forward_body H proxy r peer d)
  unfolding try_forward_body
  try_forward_body-Calls proxy r peer d h =
      elim (Bool-cases
        (not (is_some proxy.authority) && not (is_some (ticket_origin H r.ticket)))) [
          | inl nowhere ↦ rw (nowhere, try_forward_body) tt
          | inr somewhere ↦
              let (a, target) = target_of_HasTarget proxy r h somewhere in
              rw (somewhere, try_forward_body, target, send_to)
                (send_prepared-Calls proxy r peer d _
                  (λ q e. prepare_request-IsForwarded H proxy r q peer a target e))
        ]

  -- The same of `forward`, once the upgrade handle is taken out of the request.
  pub forward-Calls :
      (proxy : FallbackProxy H) (r : Request H) (peer : String)
      → is_some proxy.authority ≡ true
      → Calls (MayForward proxy (split_upgrade H r).1 peer) (forward H proxy r peer)
  unfolding forward
  forward-Calls proxy r peer own =
      Calls->>= (MayForward proxy (split_upgrade H r).1 peer)
        (try_forward_body H proxy (split_upgrade H r).1 peer (split_upgrade H r).0) _
        (try_forward_body-Calls proxy (split_upgrade H r).1 peer (split_upgrade H r).0 (inl own))
        (λ a. tt)
