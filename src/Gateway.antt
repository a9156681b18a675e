-- ===== src/Gateway.antt =====
-- src/gateway.rs and src/cors.rs: building a gateway, and the handling of one request. The access
-- log behind the feature `fallback-log` is left out: it reads and changes nothing else.
pub mod Building
pub mod Course
pub mod Responses
pub mod Requests
pub mod Panics
pub mod Origins
pub mod Endings
use http_gateway.Prelude.{
  ℕ, suc, String, Bool, true, false, not, ◌&&◌, ◌||◌, Option, none, some, Result, ok, err, List, [],
  ◌∷◌, str_eq, if◌then◌else◌, is_some, get_elem?,
}
use mathlib.Core.Option
use http_gateway.Prelude.Results.{◌>>=◌ as and_then}
use http_gateway.External.Http.{
  Http, Response, GatewayResponse, PreflightRequest, response_cors_header, get,
}
use http_gateway.External.Router.{Router}
use http_gateway.Messages.{AdmissionTicket, FallbackProxy, Request}
use http_gateway.Admission.{
  admission_scope_header, admission_token_header, AdmissionError, AcquireOutcome, acquired, busy,
  no_recorder, not_participant, not_eligible, quota_exhausted, ticket_scope, attach,
  AdmissionRegistry, ProviderRef, get_provider,
}
use http_gateway.Effects.{Prog, ret, call, ◌>>=◌}
use http_gateway.Awaits.{AcquireCall, Await, Answer, acquire, service, panic}
use http_gateway.Config.{AdmissionRule, is_valid_rule, RouteTable, select, is_excluded}
use http_gateway.Proxy.Forward.{
  ProxyConfigError, error_response, new_proxy, forward, from_admission,
}
use http_gateway.Proxy.Replay.{forward_recording}

pub data GatewayBuildError : Type 0 where
  invalid_recording_admission invalid_cors_policy : GatewayBuildError
  missing_recording_provider : String → GatewayBuildError
  proxy : ProxyConfigError → GatewayBuildError
  missing_provider : ℕ → String → GatewayBuildError

abbrev pub not_implemented : ℕ
not_implemented = 501

abbrev pub origin_header : String
origin_header = "origin"

module _ (H : Http) where
  -- `MatchedService`: what a service does with a request and the peer's address.
  abbrev pub MatchedService : Type 0
  MatchedService = Request H → String → Prog (Answer H) (GatewayResponse H)

  -- A service of the caller, of which nothing is known.
  abbrev pub external_service : MatchedService
  external_service r peer = call (service r) ret

  -- `RejectMatched`.
  unfoldable pub reject_matched : MatchedService
  reject_matched r peer =
      ret (error_response H not_implemented "matched route has no service implementation")

  -- `OriginService`: its proxy, and whether it trusts response metadata.
  pub record OriginService : Type 0 where
    pub origin : FallbackProxy H
    pub response_cors : Bool

  -- `ResponseCors::take_from_headers` on the headers of a response.
  abbrev pub without_metadata : GatewayResponse H → GatewayResponse H
  without_metadata r = record r { headers = (H.take_from_headers r.headers).1 }

  unfoldable pub origin_call : OriginService → MatchedService
  origin_call s r peer = forward_recording H s.origin r peer >>= λ response. ret (
      if s.response_cors
      then record (without_metadata response) {
        cors = some (H.take_from_headers response.headers).0;
      }
      else without_metadata response)

  -- src/cors.rs.
  unfoldable pub cors_preflight : H.CorsPolicy → Request H → Option (GatewayResponse H)
  cors_preflight cors r =
      Option.map
        (λ p. record { status = p.status; headers = p.headers; body = p.body; cors = none })
        (H.preflight cors (record {
          method = r.method;
          origin = Option.map H.value_as_bytes (get H r.headers "origin");
          request_method =
              Option.map H.value_as_bytes (get H r.headers "access-control-request-method");
          request_headers =
              Option.map H.value_as_bytes (get H r.headers "access-control-request-headers");
        }))

module _ (H : Http) (R : Router) where
  pub record Gateway : Type 0 where
    pub routes : RouteTable H R
    pub fallback : FallbackProxy H
    pub admission : AdmissionRegistry
    pub recording_admission : Option AdmissionRule
    pub cors : Option H.CorsPolicy

  -- The loop of `with_admission`, from a position on: the first provider that is missing.
  unfoldable pub check_providers :
      AdmissionRegistry → ℕ → List (Option AdmissionRule) → Result GatewayBuildError (Unit {0})
  check_providers registry route [] = ok tt
  check_providers registry route (none ∷ rules) = check_providers registry (suc route) rules
  check_providers registry route (some rule ∷ rules) =
      let rest = check_providers registry (suc route) rules in
      elim (get_provider registry rule.provider) [
        | none ↦ err (missing_provider route rule.provider)
        | some p ↦ rest
      ]

  abbrev pub proxy_result :
      Result ProxyConfigError (FallbackProxy H) → Result GatewayBuildError (FallbackProxy H)
  proxy_result (ok p) = ok p
  proxy_result (err e) = err (proxy e)

  -- `Gateway::with_admission`; `Gateway::new` is this with an empty registry.
  unfoldable pub with_admission :
      RouteTable H R → H.Uri → AdmissionRegistry → Result GatewayBuildError Gateway
  unfolding check_providers
  with_admission routes origin registry =
      and_then (check_providers registry 0 routes.admissions) λ _.
        and_then (proxy_result (new_proxy H origin)) λ fallback. ok (record {
          routes = routes;
          fallback = fallback;
          admission = registry;
          recording_admission = none;
          cors = none;
        })

  unfoldable pub with_recording_admission :
      Gateway → AdmissionRule → Result GatewayBuildError Gateway
  with_recording_admission g rule =
      if not (is_valid_rule H rule)
      then err invalid_recording_admission
      else elim (get_provider g.admission rule.provider) [
        | none ↦ err (missing_recording_provider rule.provider)
        | some p ↦ ok (record g { recording_admission = some rule })
      ]

  unfoldable pub with_cors : Gateway → H.CorsPolicy → Result GatewayBuildError Gateway
  with_cors g cors =
      if not (H.validate_cors cors)
      then err invalid_cors_policy
      else ok (record g { cors = some cors })

  -- The reserved headers and the ticket of a client are dropped.
  unfoldable pub sanitize : Request H → Request H
  sanitize r = record r {
    headers =
        H.remove (H.remove (H.remove r.headers admission_scope_header) admission_token_header)
          response_cors_header;
    ticket = none;
  }

  abbrev pub preflight_of : Option H.CorsPolicy → Request H → Option (GatewayResponse H)
  preflight_of none r = none
  preflight_of (some cors) r = cors_preflight H cors r

  -- The global rule, where the request is not excluded.
  abbrev pub keep_unless : Bool → Option AdmissionRule → Option AdmissionRule
  keep_unless excluded rule = if excluded then none else rule

  unfoldable pub global_rule : Gateway → Request H → Option AdmissionRule
  global_rule g r =
      keep_unless (is_excluded H R g.routes r.method (H.uri_path r.uri)) g.recording_admission

  -- The policy of the selected route; the outer `none` is an index out of bounds.
  abbrev pub route_rule : RouteTable H R → Option ℕ → Option (Option AdmissionRule)
  route_rule table none = some none
  route_rule table (some id) = get_elem? table.admissions id

  abbrev pub selected : Gateway → Request H → Option ℕ
  selected g r = select H R g.routes r.method (H.uri_path r.uri)

  -- The rule that applies, and whether it is the global one.
  unfoldable pub rule_for : Gateway → Request H → Option (Option (AdmissionRule × Bool))
  unfolding global_rule
  rule_for g r = elim (global_rule g r) [
    | some rule ↦ some (some (rule, true))
    | none ↦ Option.map (Option.map (λ rule. (rule, false))) (route_rule g.routes (selected g r))
  ]

  abbrev pub is_scope : Option String → String → Bool
  is_scope none scope = false
  is_scope (some s) scope = str_eq s scope

  -- The `match` on the outcome of an acquisition: whether the selected service is called, and the
  -- request with its ticket. A ticket of another scope counts as a failure, and so does the
  -- timeout, `none`. `scope()` panics on a value that is no text, which only `AdmissionTicket::new`
  -- could store, and it stores texts.
  unfoldable pub decide :
      Gateway
      → AdmissionRule
      → Request H
      → Option (Result AdmissionError (AcquireOutcome H))
      → Bool × Request H
  decide g rule r (some (ok (acquired ticket))) =
      if is_scope (ticket_scope H ticket) rule.scope
      then (true, record (attach H ticket r) { recording_fallback = some g.fallback })
      else (false, r)
  decide g rule r _ = (false, r)

  abbrev pub acquire_call : AdmissionRule → Bool → Request H → ProviderRef → AcquireCall H
  acquire_call rule global r provider = record {
    provider = provider;
    scope = rule.scope;
    path = if global then some (H.uri_path r.uri) else none;
    timeout_ms = rule.acquire_timeout_ms;
  }

  abbrev pub admit_by :
      Gateway
      → AdmissionRule
      → Bool
      → Request H
      → Option ProviderRef
      → Prog (Answer H) (Bool × Request H)
  admit_by g rule global r none = call panic (λ never. absurd never)
  admit_by g rule global r (some provider) =
      call (acquire (acquire_call rule global r provider)) (λ a. ret (decide g rule r a))

  abbrev pub admit_rule :
      Gateway
      → Request H
      → Option (Option (AdmissionRule × Bool))
      → Prog (Answer H) (Bool × Request H)
  admit_rule g r none = call panic (λ never. absurd never)
  admit_rule g r (some none) = ret (is_some (selected g r), r)
  admit_rule g r (some (some (rule, global))) =
      admit_by g rule global r (get_provider g.admission rule.provider)

  unfoldable pub admit : Gateway → Request H → Prog (Answer H) (Bool × Request H)
  unfolding rule_for decide
  admit g r = admit_rule g r (rule_for g r)

  abbrev pub dispatch :
      Gateway → MatchedService H → String → Bool × Request H → Prog (Answer H) (GatewayResponse H)
  dispatch g matched peer (true, r) = matched r peer
  dispatch g matched peer (false, r) = forward H g.fallback r peer

  abbrev pub apply_cors :
      Option H.CorsPolicy → Option H.HeaderValue → GatewayResponse H → GatewayResponse H
  apply_cors none origin r = r
  apply_cors (some cors) origin r = H.apply_response cors (Option.map H.value_as_bytes origin) r

  -- `self.cors.as_ref().and_then(|_| headers.get(ORIGIN))`.
  abbrev pub cors_origin : Option H.CorsPolicy → Request H → Option H.HeaderValue
  cors_origin none r = none
  cors_origin (some cors) r = get H r.headers origin_header

  -- The response as the client gets it.
  unfoldable pub publish : Gateway → Option H.HeaderValue → GatewayResponse H → GatewayResponse H
  publish g origin r = apply_cors g.cors origin (without_metadata H r)

  unfoldable pub handle_sanitized :
      Gateway → MatchedService H → String → Request H → Prog (Answer H) (GatewayResponse H)
  unfolding admit publish
  handle_sanitized g matched peer r = admit g r >>= λ d.
      dispatch g matched peer d >>= λ response. ret (publish g (cors_origin g.cors r) response)

  unfoldable pub handle :
      Gateway → MatchedService H → Request H → String → Prog (Answer H) (GatewayResponse H)
  unfolding sanitize handle_sanitized
  handle g matched r peer =
      let rest = handle_sanitized g matched peer (sanitize r) in
      elim (preflight_of g.cors (sanitize r)) [ some response ↦ ret response | none ↦ rest ]
