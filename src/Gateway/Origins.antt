-- ===== src/Gateway/Origins.antt =====
-- The constructors of `OriginService`, and `Gateway::new`, in src/gateway.rs.
use http_gateway.Prelude.{
  ◌≡◌, refl, subst, true, false, none, some, Option, List, [], ◌∷◌, Result, ok, arith, All,
}
use http_gateway.Prelude.Results.{◌>>=◌}
use http_gateway.External.Http.{Http}
use http_gateway.External.Router.{Router}
use http_gateway.Admission.{get_provider}
use http_gateway.Config.{AdmissionRule, RouteTable, RoutesConfig, compile}
use http_gateway.Proxy.Forward.{ProxyConfigError, from_admission, new_proxy}
use http_gateway.Gateway.{GatewayBuildError, OriginService, Gateway, with_admission}
use http_gateway.Gateway.Building.{IsProvided, with_admission-IsBuilt}

module _ (H : Http) where
  -- `OriginService::from_admission`, `new` and `with_response_cors`.
  abbrev origin_from_admission : OriginService H
  origin_from_admission = record { origin = from_admission H; response_cors = false }

  abbrev pub new_origin : H.Uri → Result ProxyConfigError (OriginService H)
  new_origin u = new_proxy H u >>= λ p. ok (record { origin = p; response_cors = false })

  abbrev with_response_cors : OriginService H → OriginService H
  with_response_cors s = record s { response_cors = true }

module _ (H : Http) (R : Router) where
  -- `Gateway::new`: no provider is known.
  abbrev new_gateway : RouteTable H R → H.Uri → Result GatewayBuildError (Gateway H R)
  new_gateway routes origin = with_admission H R routes origin []

  no_provider :
      (rules : List (Option AdmissionRule))
      → All (IsProvided H R []) rules
      → All (λ rule. rule ≡ none) rules
  unfolding get_provider
  no_provider [] h = tt
  no_provider (none ∷ rules) h = (refl, no_provider rules h.1)
  no_provider (some rule ∷ rules) h = absurd (let bad : false ≡ true = h.0 in cc)

  with_admission-registry :
      (t : RouteTable H R) (origin : H.Uri) (g : Gateway H R)
      → new_gateway t origin ≡ ok g
      → g.admission ≡ []
  unfolding with_admission
  with_admission-registry t origin g e = ground arith

  -- What `new` builds over a compiled table has no route that asks a provider.
  new_gateway-unruled :
      (c : RoutesConfig) (t : RouteTable H R) (origin : H.Uri) (g : Gateway H R)
      → compile H R c ≡ ok t
      → new_gateway t origin ≡ ok g
      → All (λ rule. rule ≡ none) g.routes.admissions
  new_gateway-unruled c t origin g compiled e =
      let b = with_admission-IsBuilt H R c t origin [] g compiled e in
      no_provider g.routes.admissions (
        subst (λ registry. All (IsProvided H R registry) g.routes.admissions)
          (with_admission-registry t origin g e) b.provided)
