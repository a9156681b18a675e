-- ===== src/Server/Limits.antt =====
-- When a gateway of src/server.rs is served, and with which limits.
use http_gateway.Prelude.{
  ◌≤◌, ◌<◌, ◌≡◌, refl, sym, subst, ◌∙◌, String, List, [], ◌∷◌, Result, ok, err, arith, Duration,
}
use http_gateway.External.Http.{Http}
use http_gateway.External.Router.{Router}
use http_gateway.Effects.{Event, Always}
use http_gateway.Gateway.{MatchedService, Gateway, handle}
use http_gateway.Server.{
  GatewayConfig, Listener, IoError, invalid_input, not_accepted, validate_config, listen, Served,
  listener_of, serve_valid, serve_with_config,
}

-- The limits that protect a listener.
pub record IsLimited (c : GatewayConfig) : Type 0 where
  pub connections : 0 < c.max_connections
  pub request_head : 8_192 ≤ c.max_request_head_bytes
  pub read_timeout : 0 < c.header_read_timeout

validate_config-IsLimited :
    (c : GatewayConfig) (u : Unit {0}) → validate_config c ≡ ok u → IsLimited c
unfolding validate_config
validate_config-IsLimited c u e = record {
  connections = ground arith;
  request_head = ground arith;
  read_timeout = ground arith;
}

validate_config_limited : (c : GatewayConfig) → IsLimited c → validate_config c ≡ ok tt
unfolding validate_config
validate_config_limited c h = ground (arith, h.connections, h.request_head, h.read_timeout)

-- What is refused is an invalid input.
validate_config-refused :
    (c : GatewayConfig) (e : IoError)
    → validate_config c ≡ err e
    → (text : String) × (e ≡ invalid_input text)
unfolding validate_config
validate_config-refused c (invalid_input text) h = (text, refl)
validate_config-refused c not_accepted h = absurd (ground arith)

module _ (H : Http) (R : Router) (g : Gateway H R) (matched : MatchedService H) (grace : Duration)
    (c : GatewayConfig) where
  -- What happened: nothing, for a limit that is missing; or one listener, with its result.
  pub data Serves : List (Event (Served H R)) → Result IoError (Unit {0}) → Type 0 where
    refused : (text : String) → ¬ IsLimited c → Serves [] (err (invalid_input text))
    listened :
        (l : Listener H R) (r : Result IoError (Unit {0}))
        → IsLimited c
        → l.max_connections ≡ c.max_connections
        → l.max_request_head_bytes ≡ c.max_request_head_bytes
        → l.header_read_timeout ≡ c.header_read_timeout
        → l.shutdown_grace ≡ grace
        → l.tcp_nodelay ≡ c.tcp_nodelay
        → l.service ≡ handle H R g matched
        → Serves ((listen l, r) ∷ []) r

  serve_valid-Serves :
      (o : Result IoError (Unit {0}))
      → validate_config c ≡ o
      → Always Serves [] (serve_valid H R (listener_of H R g matched grace c) o)
  serve_valid-Serves (ok u) e =
      λ r. listened _ r (validate_config-IsLimited c u e) refl refl refl refl refl refl
  serve_valid-Serves (err x) e =
      let (text, same) = validate_config-refused c x e in
      let unlimited : ¬ IsLimited c =
        λ h. let bad : ok tt ≡ err x = sym (validate_config_limited c h) ∙ e in cc in
      subst (λ y. Serves [] (err y)) (sym same) (refused text unlimited)

  -- A gateway is served where every limit is there, and only then: one listener runs, with each limit of
  -- the configuration, `handle` for every request, and its result as the result; otherwise nothing runs,
  -- and the result is an invalid input.
  pub serve_with_config-Serves : Always Serves [] (serve_with_config H R g matched grace c)
  unfolding serve_with_config
  serve_with_config-Serves = serve_valid-Serves (validate_config c) refl
