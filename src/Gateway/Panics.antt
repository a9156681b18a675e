-- ===== src/Gateway/Panics.antt =====
-- Handling a request in src/gateway.rs does not panic.
use http_gateway.Prelude.{
  ℕ, zero, suc, String, ◌≡◌, refl, sym, ap, subst, inl, inr, Bool, true, false, Result, ok, err,
  ◌⊎◌, Option, none, some, List, [], ◌∷◌, is_some, get_elem?, All, Option-cases, Bool-cases,
}
use mathlib.Core.Option
use mathlib.Core.Option.{some-injective}
use http_gateway.External.Http.{Http, GatewayResponse}
use http_gateway.External.Router.{Router}
use http_gateway.Messages.{Request, FallbackProxy}
use http_gateway.Admission.{AdmissionError, AcquireOutcome, acquired, ticket_scope, ProviderRef}
use http_gateway.Effects.{Prog, ret, ◌>>=◌, Calls, Calls->>=, Calls-mono}
use http_gateway.Awaits.{Await, Answer, acquire, service, collect, send, spawn_tunnel, panic}
use http_gateway.Config.{AdmissionRule, is_excluded}
use http_gateway.Proxy.Forward.{forward, split_upgrade}
use http_gateway.Proxy.Forward.Laws.{MayForward, forward-Calls}
use http_gateway.Gateway.{
  is_scope, decide, publish, cors_origin, MatchedService, Gateway, sanitize, preflight_of, selected,
  global_rule, route_rule, rule_for, admit_by, admit_rule, admit, dispatch, handle_sanitized,
  handle,
}
use http_gateway.Gateway.Building.{IsProvided, IsBuilt}

module _ (H : Http) (R : Router) where
  abbrev pub IsCalm : Await H → Type 0
  IsCalm panic = ⊥
  IsCalm _ = Unit {0}

  pub forwarded-IsCalm :
      (proxy : FallbackProxy H) (r : Request H) (peer : String) (e : Await H)
      → MayForward H proxy r peer e
      → IsCalm e
  forwarded-IsCalm proxy r peer (send s) f = tt
  forwarded-IsCalm proxy r peer (acquire c) f = tt
  forwarded-IsCalm proxy r peer (service s) f = tt
  forwarded-IsCalm proxy r peer (collect b) f = tt
  forwarded-IsCalm proxy r peer (spawn_tunnel u d response) f = tt
  forwarded-IsCalm proxy r peer panic f = f

  module _ (g : Gateway H R) (b : IsBuilt H R g) where
    All-get_elem? :
        (P : Option AdmissionRule → Type 0) (xs : List (Option AdmissionRule)) (i : ℕ)
        (x : Option AdmissionRule)
        → All P xs
        → get_elem? xs i ≡ some x
        → P x
    All-get_elem? P [] i x all e = cc
    All-get_elem? P (y ∷ ys) zero x all e = subst P (some-injective _ _ e) all.0
    All-get_elem? P (y ∷ ys) (suc i) x all e = All-get_elem? P ys i x all.1 e

    paired-IsProvided :
        (x : Option AdmissionRule)
        → IsProvided H R g.admission x
        → IsProvided H R g.admission
            (Option.map (λ (y : AdmissionRule × Bool). y.0) (Option.map (λ rule. (rule, false)) x))
    paired-IsProvided none h = h
    paired-IsProvided (some rule) h = h

    -- The global rule, or else that of the route.
    chosen-IsProvided :
        (o : Option AdmissionRule) (q : Option (Option AdmissionRule)) (x : Option AdmissionRule)
        → IsProvided H R g.admission o
        → q ≡ some x
        → IsProvided H R g.admission x
        → (y : Option (AdmissionRule × Bool)) × ◌≡◌ {A = Option (Option (AdmissionRule × Bool))}
            (elim o [
              | some rule ↦ some (some (rule, true))
              | none ↦ Option.map (Option.map (λ rule. (rule, false))) q
            ])
            (some y)
          × IsProvided H R g.admission (Option.map (λ z. z.0) y)
    chosen-IsProvided (some rule) q x h e k = (some (rule, true), refl, h)
    chosen-IsProvided none q x h e k = (
      Option.map (λ rule. (rule, false)) x,
      ap (Option.map (Option.map (λ rule. (rule, false)))) e,
      paired-IsProvided x k,
    )

    global_rule-IsProvided : (r : Request H) → IsProvided H R g.admission (global_rule H R g r)
    unfolding global_rule
    global_rule-IsProvided r =
        elim (Bool-cases (is_excluded H R g.routes r.method (H.uri_path r.uri))) [
          | inl out ↦ rw out tt
          | inr kept ↦ rw kept b.recording_provided
        ]

    route_rule-IsProvided :
        (r : Request H) (id : Option ℕ)
        → selected H R g r ≡ id
        → (x : Option AdmissionRule) × (route_rule H R g.routes id ≡ some x)
          × IsProvided H R g.admission x
    route_rule-IsProvided r none e = (none, refl, tt)
    route_rule-IsProvided r (some id) e =
        let (x, at) = b.in_range r.method (H.uri_path r.uri) id e in
        (x, at, All-get_elem? (IsProvided H R g.admission) g.routes.admissions id x b.provided at)

    -- The rule that applies is found, and names a provider of the registry.
    rule_for-IsProvided :
        (r : Request H)
        → (o : Option (AdmissionRule × Bool)) × (rule_for H R g r ≡ some o)
          × IsProvided H R g.admission (Option.map (λ x. x.0) o)
    unfolding rule_for
    rule_for-IsProvided r =
        let (x, at, provided) = route_rule-IsProvided r (selected H R g r) refl in
        chosen-IsProvided (global_rule H R g r) (route_rule H R g.routes (selected H R g r)) x
          (global_rule-IsProvided r) at provided

    -- A request that `dispatch` hands to the service is not recorded, or falls back to the gateway's
    -- own origin.
    abbrev pub IsHanded : Request H → Type 0
    IsHanded q = (q.recording_fallback ≡ none) ⊎ (q.recording_fallback ≡ some g.fallback)

    decide-IsHanded :
        (rule : AdmissionRule) (r : Request H)
        (a : Option (Result AdmissionError (AcquireOutcome H)))
        → r.recording_fallback ≡ none
        → IsHanded (decide H R g rule r a).1
    unfolding decide
    decide-IsHanded rule r (some (ok (acquired t))) e =
        elim (Bool-cases (is_scope H R (ticket_scope H t) rule.scope)) [
          | inl same ↦ rw same (inr refl)
          | inr other ↦ rw other (inl e)
        ]
    decide-IsHanded rule r none e = inl e
    decide-IsHanded rule r (some (err x)) e = inl e
    decide-IsHanded rule r (some (ok _)) e = inl e

    module _ (matched : MatchedService H)
        (calm : (r : Request H) (peer : String) → IsHanded r → Calls IsCalm (matched r peer)) where
      dispatch-IsCalm :
          (peer : String) (d : Bool × Request H)
          → IsHanded d.1
          → Calls IsCalm (dispatch H R g matched peer d)
      dispatch-IsCalm peer (true, r) h = calm r peer h
      dispatch-IsCalm peer (false, r) h =
          Calls-mono (MayForward H g.fallback (split_upgrade H r).1 peer) IsCalm
            (forward H g.fallback r peer) (forwarded-IsCalm g.fallback (split_upgrade H r).1 peer)
            (forward-Calls H g.fallback r peer b.has_origin)

      -- The rest of `handle` once the way is chosen.
      abbrev finish : Request H → String → Bool × Request H → Prog (Answer H) (GatewayResponse H)
      finish r peer d = dispatch H R g matched peer d >>= λ response.
          ret (publish H R g (cors_origin H R g.cors r) response)

      finish-IsCalm :
          (r : Request H) (peer : String) (d : Bool × Request H)
          → IsHanded d.1
          → Calls IsCalm (finish r peer d)
      finish-IsCalm r peer d h =
          Calls->>= IsCalm (dispatch H R g matched peer d) _ (dispatch-IsCalm peer d h)
            (λ response. tt)

      admit_by-IsCalm :
          (rule : AdmissionRule) (global : Bool) (r : Request H) (peer : String)
          (p : Option ProviderRef)
          → r.recording_fallback ≡ none
          → is_some p ≡ true
          → Calls IsCalm (admit_by H R g rule global r p >>= finish r peer)
      admit_by-IsCalm rule global r peer none u e = cc
      admit_by-IsCalm rule global r peer (some p) u e =
          (tt, λ a. finish-IsCalm r peer (decide H R g rule r a) (decide-IsHanded rule r a u))

      admit_rule-IsCalm :
          (r : Request H) (peer : String) (o : Option (AdmissionRule × Bool))
          → r.recording_fallback ≡ none
          → IsProvided H R g.admission (Option.map (λ x. x.0) o)
          → Calls IsCalm (admit_rule H R g r (some o) >>= finish r peer)
      admit_rule-IsCalm r peer none u h =
          finish-IsCalm r peer (is_some (selected H R g r), r) (inl u)
      admit_rule-IsCalm r peer (some (rule, global)) u h = admit_by-IsCalm rule global r peer _ u h

      admit-IsCalm :
          (r : Request H) (peer : String)
          → r.recording_fallback ≡ none
          → Calls IsCalm (admit H R g r >>= finish r peer)
      unfolding admit
      admit-IsCalm r peer u =
          let (o, found, provided) = rule_for-IsProvided r in
          subst (λ x. Calls IsCalm (admit_rule H R g r x >>= finish r peer)) (sym found)
            (admit_rule-IsCalm r peer o u provided)

      -- A gateway that `IsBuilt` handles a request that arrives unrecorded without a panic, whatever is
      -- answered, where the service of its routes does not panic at a request that is unrecorded, or
      -- recorded with the gateway's own origin to fall back to.
      pub handle-IsCalm :
          (r : Request H) (peer : String)
          → r.recording_fallback ≡ none
          → Calls IsCalm (handle H R g matched r peer)
      unfolding handle handle_sanitized sanitize
      handle-IsCalm r peer unrecorded =
          elim (Option-cases (preflight_of H R g.cors (sanitize H R r))) [
            | inr (p, answered) ↦ rw (answered, handle) tt
            | inl open_to ↦ rw (open_to, handle) (admit-IsCalm (sanitize H R r) peer unrecorded)
          ]
