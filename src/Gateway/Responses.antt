-- ===== src/Gateway/Responses.antt =====
-- What src/gateway.rs lets out to the client.
use http_gateway.Prelude.{String, ◌≡◌, ◌∙◌, Option, none, some, List, []}
use http_gateway.External.Http.{Http, GatewayResponse, response_cors_header}
use http_gateway.External.Router.{Router}
use http_gateway.Messages.{Request}
use http_gateway.Effects.{Event, Always, Always->>=, Always-all}
use http_gateway.Awaits.{Answer}
use http_gateway.Gateway.{
  Gateway, MatchedService, without_metadata, apply_cors, publish, sanitize, preflight_of, admit,
  dispatch, handle,
}

module _ (H : Http) (R : Router) where
  open H use {get_all}

  -- The response carries no reserved metadata.
  abbrev pub IsPublic : GatewayResponse H → Type 0
  IsPublic r = get_all r.headers response_cors_header ≡ []

  apply_cors-IsPublic :
      (cors : Option H.CorsPolicy) (o : Option H.HeaderValue) (r : GatewayResponse H)
      → IsPublic r
      → IsPublic (apply_cors H R cors o r)
  apply_cors-IsPublic none o r h = h
  apply_cors-IsPublic (some cors) o r h = H.get_all-apply_response cors _ r ∙ h

  publish-IsPublic :
      (g : Gateway H R) (o : Option H.HeaderValue) (r : GatewayResponse H)
      → IsPublic (publish H R g o r)
  unfolding publish
  publish-IsPublic g o r =
      apply_cors-IsPublic g.cors o (without_metadata H r) (H.get_all-take_from_headers r.headers _)

  -- Whatever the selected service, the providers and the origins answer, with CORS on or off, a
  -- response of the gateway that is no preflight answer carries no reserved CORS metadata.
  pub handle-IsPublic :
      (g : Gateway H R) (matched : MatchedService H) (r : Request H) (peer : String)
      → preflight_of H R g.cors (sanitize H R r) ≡ none
      → Always (λ log response. IsPublic response) [] (handle H R g matched r peer)
  unfolding handle
  handle-IsPublic g matched r peer e =
      let Q : List (Event (Answer H)) → GatewayResponse H → Type 0 =
        λ log response. IsPublic response in
      rw (e, handle)
        (Always->>= (λ log d. Unit {0}) Q [] (admit H R g (sanitize H R r)) _
          (Always-all _ [] (admit H R g (sanitize H R r)) (λ log d. tt))
          λ log d u.
            Always->>= (λ log' response. Unit {0}) Q log (dispatch H R g matched peer d) _
              (Always-all _ log (dispatch H R g matched peer d) (λ log' response. tt))
              λ log' response u'. publish-IsPublic g _ response)
