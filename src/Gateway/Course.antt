-- ===== src/Gateway/Course.antt =====
-- The course of `Gateway::handle` in src/gateway.rs: who is asked, and who answers.
use http_gateway.Prelude.{
  String, ◌≡◌, ◌≢◌, refl, sym, ap, subst, ◌∙◌, inl, inr, Bool, true, false, Option, none, some,
  Result, ok, err, List, [], ◌∷◌, ◌++◌, is_some, eq_iff, Bool-cases, Option-cases, ◌⊎◌, ℕ,
  get_elem?, if◌then◌else◌,
}
use mathlib.Core.Option
use mathlib.Core.Option.{some-injective}
use http_gateway.External.Http.{Http, GatewayResponse}
use http_gateway.External.Router.{Router}
use http_gateway.Messages.{AdmissionTicket, Request}
use http_gateway.Admission.{
  AdmissionError, AcquireOutcome, acquired, ticket_scope, attach, ProviderRef, get_provider,
}
use http_gateway.Effects.{Prog, ret, ◌>>=◌, Event, Always, Always->>=, After, Always-since}
use http_gateway.Awaits.{AcquireCall, Answer, acquire, service}
use http_gateway.Config.{AdmissionRule, is_excluded}
use http_gateway.Proxy.Forward.{forward}
use http_gateway.Proxy.Forward.Attempts.{IsProxied, forward-IsProxied}
use http_gateway.Gateway.Building.{IsBuilt}
use http_gateway.Gateway.{
  Gateway, external_service, sanitize, preflight_of, selected, global_rule, route_rule, rule_for,
  is_scope, decide, admit_by, admit_rule, dispatch, publish, handle, cors_origin,
}

module _ (H : Http) (R : Router) where
  -- The request as the selected service gets it, with a ticket.
  abbrev pub admitted_request : Gateway H R → AdmissionTicket H → Request H → Request H
  admitted_request g t r = record (attach H t r) { recording_fallback = some g.fallback }

  -- Proxied to the gateway's fallback origin, whose answer `publish` makes the response.
  abbrev pub IsFallback :
      Gateway H R → Request H → String → List (Event (Answer H)) → GatewayResponse H → Type 0
  IsFallback g r peer log response =
      (x : GatewayResponse H) × IsProxied H g.fallback r peer log x
      × (response ≡ publish H R g (cors_origin H R g.cors r) x)

  -- No global policy applies: there is none, or an exclusion selects the request.
  abbrev pub IsOpen : Gateway H R → Request H → Type 0
  IsOpen g r =
      (is_excluded H R g.routes r.method (H.uri_path r.uri) ≡ true) ⊎ (g.recording_admission ≡ none)

  -- The policy that applies, and whether it is the global one, which goes before that of a route.
  abbrev pub IsGoverned : Gateway H R → Request H → Option (AdmissionRule × Bool) → Type 0
  IsGoverned g r none =
      IsOpen g r
      × ((selected H R g r ≡ none)
          ⊎ ((id : ℕ) × (selected H R g r ≡ some id)
              × (get_elem? g.routes.admissions id ≡ some none)))
  IsGoverned g r (some (rule, true)) =
      (is_excluded H R g.routes r.method (H.uri_path r.uri) ≡ false)
      × (g.recording_admission ≡ some rule)
  IsGoverned g r (some (rule, false)) =
      IsOpen g r
      × (id : ℕ) × (selected H R g r ≡ some id)
      × (get_elem? g.routes.admissions id ≡ some (some rule))

  -- What the provider of a rule is asked: the path only for the global one.
  abbrev pub asked_for : AdmissionRule → Bool → Request H → ProviderRef → AcquireCall H
  asked_for rule global r p = record {
    provider = p;
    scope = rule.scope;
    path = if global then some (H.uri_path r.uri) else none;
    timeout_ms = rule.acquire_timeout_ms;
  }

  -- The ways that a sanitized request can go, by the events of its handling and its response.
  pub data Course (g : Gateway H R) (r : Request H) (peer : String) (log : List (Event (Answer H)))
      (response : GatewayResponse H) : Type 0 where
    -- No policy, and no route selected: the fallback.
    unmatched :
        IsGoverned g r none
        → selected H R g r ≡ none
        → IsFallback g r peer log response
        → Course g r peer log response
    -- No policy, and a route selected: the service alone.
    matched :
        (x : GatewayResponse H)
        → IsGoverned g r none
        → is_some (selected H R g r) ≡ true
        → log ≡ (service r, x) ∷ []
        → response ≡ publish H R g (cors_origin H R g.cors r) x
        → Course g r peer log response
    -- A policy, and its provider gave a ticket of its scope: the service gets the ticket.
    admitted :
        (rule : AdmissionRule) (global : Bool) (p : ProviderRef) (t : AdmissionTicket H)
        (x : GatewayResponse H)
        → IsGoverned g r (some (rule, global))
        → get_provider g.admission rule.provider ≡ some p
        → ticket_scope H t ≡ some rule.scope
        → log
          ≡ (acquire (asked_for rule global r p), some (ok (acquired t)))
            ∷ (service (admitted_request g t r), x)
            ∷ []
        → response ≡ publish H R g (cors_origin H R g.cors r) x
        → Course g r peer log response
    -- A policy, and any other outcome: the fallback, and never the service.
    declined :
        (rule : AdmissionRule) (global : Bool) (p : ProviderRef)
        (a : Option (Result AdmissionError (AcquireOutcome H))) (rest : List (Event (Answer H)))
        → IsGoverned g r (some (rule, global))
        → get_provider g.admission rule.provider ≡ some p
        → ((t : AdmissionTicket H)
            → a ≡ some (ok (acquired t))
            → ticket_scope H t ≢ some rule.scope)
        → log ≡ (acquire (asked_for rule global r p), a) ∷ rest
        → IsFallback g r peer rest response
        → Course g r peer log response

  -- By the policy of the selected route, where no global one applies.
  route_rule-IsGoverned :
      (g : Gateway H R) (r : Request H) (s : Option ℕ) (entry : Option (Option AdmissionRule))
      (o : Option (AdmissionRule × Bool))
      → IsOpen g r
      → selected H R g r ≡ s
      → route_rule H R g.routes s ≡ entry
      → Option.map (Option.map (λ rule. (rule, false))) entry ≡ some o
      → IsGoverned g r o
  route_rule-IsGoverned g r s none o free picked found e = cc
  route_rule-IsGoverned g r none (some none) o free picked found e =
      subst (IsGoverned g r) (some-injective _ _ e) (free, inl picked)
  route_rule-IsGoverned g r (some id) (some none) o free picked found e =
      subst (IsGoverned g r) (some-injective _ _ e) (free, inr (id, picked, found))
  route_rule-IsGoverned g r none (some (some rule)) o free picked found e = cc
  route_rule-IsGoverned g r (some id) (some (some rule)) o free picked found e =
      subst (IsGoverned g r) (some-injective _ _ e) (free, id, picked, found)

  rule_for-IsGoverned :
      (g : Gateway H R) (r : Request H) (o : Option (AdmissionRule × Bool))
      → rule_for H R g r ≡ some o
      → IsGoverned g r o
  unfolding rule_for global_rule
  rule_for-IsGoverned g r o e =
      elim (Bool-cases (is_excluded H R g.routes r.method (H.uri_path r.uri))) [
        | inl out ↦
            route_rule-IsGoverned g r _ _ o (inl out) refl refl
              (sym (rw (out, rule_for, global_rule) refl) ∙ e)
        | inr within ↦ elim (Option-cases g.recording_admission) [
          | inl open_to ↦
              route_rule-IsGoverned g r _ _ o (inr open_to) refl refl
                (sym (simp (within, open_to, rule_for, global_rule) refl) ∙ e)
          | inr (rule, global) ↦
              let everywhere : rule_for H R g r ≡ some (some (rule, true)) =
                simp (within, global, rule_for, global_rule) refl in
              subst (IsGoverned g r) (some-injective _ _ (sym everywhere ∙ e)) (within, global)
        ]
      ]

  scope_of_is_scope :
      (s : Option String) (scope : String) → is_scope H R s scope ≡ true → s ≡ some scope
  scope_of_is_scope none scope e = cc
  scope_of_is_scope (some s) scope e = ap some ((eq_iff s scope).0 e)

  is_scope_of : (s : Option String) (scope : String) → s ≡ some scope → is_scope H R s scope ≡ true
  is_scope_of none scope e = cc
  is_scope_of (some s) scope e = (eq_iff s scope).1 (some-injective _ _ e)

  other_scope :
      (t t' : AdmissionTicket H) (scope : String)
      → is_scope H R (ticket_scope H t) scope ≡ false
      → ◌≡◌ {A = Option (Result AdmissionError (AcquireOutcome H))}
          (some (ok (acquired t)))
          (some (ok (acquired t')))
      → ticket_scope H t' ≡ some scope
      → ⊥
  other_scope t t' scope other q s =
      let same : t ≡ t' = cc in
      let holds = is_scope_of (ticket_scope H t) scope (ap (ticket_scope H) same ∙ s) in
      let bad : false ≡ true = sym other ∙ holds in cc

  module _ (g : Gateway H R) (b : IsBuilt H R g) (peer : String) where
    -- The rest of `handle` once the way is chosen.
    abbrev finish : Request H → Bool × Request H → Prog (Answer H) (GatewayResponse H)
    finish r d = dispatch H R g (external_service H) peer d >>= λ response.
        ret (publish H R g (cors_origin H R g.cors r) response)

    fallback_way :
        (r : Request H) (log : List (Event (Answer H)))
        → ((rest : List (Event (Answer H))) (response : GatewayResponse H)
            → IsFallback g r peer rest response
            → Course g r peer (log ++ rest) response)
        → Always (Course g r peer) log (finish r (false, r))
    fallback_way r log f =
        Always->>= (After log (IsProxied H g.fallback r peer)) (Course g r peer) log
          (forward H g.fallback r peer) _
          (Always-since log (IsProxied H g.fallback r peer) (forward H g.fallback r peer)
            (forward-IsProxied H g.fallback r peer))
          (λ log' x s.
            subst (λ l. Course g r peer l (publish H R g (cors_origin H R g.cors r) x)) (sym s.1)
              (f s.0 _ (x, s.2, refl)))

    module _ (r : Request H) (rule : AdmissionRule) (global : Bool)
        (e : IsGoverned g r (some (rule, global))) where
      decided_way :
          (p : ProviderRef)
          → get_provider g.admission rule.provider ≡ some p
          → (a : Option (Result AdmissionError (AcquireOutcome H)))
          → Always
              (Course g r peer)
              ((acquire (asked_for rule global r p), a) ∷ [])
              (finish r (decide H R g rule r a))
      unfolding decide
      decided_way p known (some (ok (acquired t))) =
          elim (Bool-cases (is_scope H R (ticket_scope H t) rule.scope)) [
            | inl same ↦
                rw (same, decide, finish)
                  (λ x. admitted rule global p t x e known (scope_of_is_scope _ _ same) refl refl)
            | inr other ↦
                rw (other, decide)
                  (fallback_way r _ (λ rest response f.
                    declined rule global p _ rest e known
                      (λ t' q s. other_scope t t' rule.scope other q s) refl f))
          ]
      decided_way p known none =
          fallback_way r _
            (λ rest response f. declined rule global p _ rest e known (λ t q. cc) refl f)
      decided_way p known (some (err x)) =
          fallback_way r _
            (λ rest response f. declined rule global p _ rest e known (λ t q. cc) refl f)
      decided_way p known (some (ok _)) =
          fallback_way r _
            (λ rest response f. declined rule global p _ rest e known (λ t q. cc) refl f)

      admit_by_way :
          (p : Option ProviderRef)
          → get_provider g.admission rule.provider ≡ p
          → Always (Course g r peer) [] (admit_by H R g rule global r p >>= finish r)
      admit_by_way none known = λ never. absurd never
      admit_by_way (some p) known = λ a. decided_way p known a

    unruled_way :
        (r : Request H) (picked : Option ℕ)
        → selected H R g r ≡ picked
        → IsGoverned g r none
        → Always (Course g r peer) [] (finish r (is_some picked, r))
    unruled_way r (some id) s e = λ x. matched x e (ap is_some s) refl refl
    unruled_way r none s e = fallback_way r [] (λ rest response f. unmatched e s f)

    admit_rule_way :
        (r : Request H) (o : Option (Option (AdmissionRule × Bool)))
        → rule_for H R g r ≡ o
        → Always (Course g r peer) [] (admit_rule H R g r o >>= finish r)
    admit_rule_way r none e = λ never. absurd never
    admit_rule_way r (some none) e = unruled_way r _ refl (rule_for-IsGoverned g r none e)
    admit_rule_way r (some (some (rule, global))) e =
        admit_by_way r rule global (rule_for-IsGoverned g r (some (rule, global)) e) _ refl

    -- Whatever is answered, a request that CORS does not answer as a preflight, at a gateway that
    -- `IsBuilt`, goes one of the ways of `Course`: at most one acquisition, at the provider of the policy
    -- that applies, with its scope and its timeout and for the global policy with the path, and before
    -- anything is dispatched; the selected service with no policy or with a ticket of the policy's scope,
    -- once and alone; and in every other case, so on every failed, foreign or timed-out admission, one
    -- attempt at the fallback origin. What the client gets is what `publish` makes of the service's
    -- response or of the result of that attempt.
    pub handle-Course :
        (r : Request H)
        → preflight_of H R g.cors (sanitize H R r) ≡ none
        → Always (Course g (sanitize H R r) peer) [] (handle H R g (external_service H) r peer)
    unfolding handle
    handle-Course r e = rw (e, handle) (admit_rule_way (sanitize H R r) _ refl)

  -- A preflight that the policy answers is answered with no call at all.
  pub handle-preflight :
      (g : Gateway H R) (r : Request H) (peer : String) (p : GatewayResponse H)
      → preflight_of H R g.cors (sanitize H R r) ≡ some p
      → handle H R g (external_service H) r peer ≡ ret p
  unfolding handle
  handle-preflight g r peer p e = rw (e, handle) refl
