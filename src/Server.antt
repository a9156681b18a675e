-- ===== src/Server.antt =====
-- src/server.rs: the limits of a listener, and how the gateway is served. The accept loop is that of the
-- crate `brz-http-server`: an effect that takes a configuration and a service.
pub mod Limits
use http_gateway.Prelude.{
  ℕ, ◌*◌, String, Bool, true, Result, ok, err, ltb, ◌==◌, if◌then◌else◌, Duration, from_secs,
}
use http_gateway.External.Http.{Http, GatewayResponse}
use http_gateway.External.Router.{Router}
use http_gateway.Messages.{Request}
use http_gateway.Effects.{Prog, ret, call}
use http_gateway.Awaits.{Answer}
use http_gateway.Gateway.{MatchedService, Gateway, handle}

abbrev pub min_http1_buffer_size : ℕ
min_http1_buffer_size = 8 * 1024

pub record GatewayConfig : Type 0 where
  pub max_connections : ℕ
  pub max_request_head_bytes : ℕ
  pub header_read_timeout : Duration
  pub tcp_nodelay : Bool

abbrev pub default_config : GatewayConfig
default_config = record {
  max_connections = 65_536;
  max_request_head_bytes = 32 * 1024;
  header_read_timeout = from_secs 15;
  tcp_nodelay = true;
}

-- `std::io::Error`: invalid input with its text, or a failure to accept a connection.
pub data IoError : Type 0 where
  invalid_input : String → IoError
  not_accepted : IoError

unfoldable pub validate_config : GatewayConfig → Result IoError (Unit {0})
validate_config c =
    if c.max_connections == 0
    then err (invalid_input "max_connections must be greater than zero")
    else if ltb c.max_request_head_bytes min_http1_buffer_size
    then err (invalid_input "max_request_head_bytes must be at least 8192")
    else if c.header_read_timeout == 0
    then err (invalid_input "header_read_timeout must be greater than zero")
    else ok tt

module _ (H : Http) (R : Router) where
  -- `brz_http_server::hyper::Config`, with the service of every request.
  pub record Listener : Type 0 where
    pub max_connections : ℕ
    pub max_request_head_bytes : ℕ
    pub header_read_timeout : Duration
    pub shutdown_grace : Duration
    pub tcp_nodelay : Bool
    pub service : Request H → (peer : String) → Prog (Answer H) (GatewayResponse H)

  pub data ServerCall : Type 0 where
    listen : Listener → ServerCall

  -- The listener ends after the shutdown, or fails.
  abbrev pub Served : ServerCall → Type 0
  Served c = Result IoError (Unit {0})

  abbrev pub listener_of : Gateway H R → MatchedService H → Duration → GatewayConfig → Listener
  listener_of g matched grace c = record {
    max_connections = c.max_connections;
    max_request_head_bytes = c.max_request_head_bytes;
    header_read_timeout = c.header_read_timeout;
    shutdown_grace = grace;
    tcp_nodelay = c.tcp_nodelay;
    service = handle H R g matched;
  }

  abbrev pub serve_valid :
      Listener → Result IoError (Unit {0}) → Prog Served (Result IoError (Unit {0}))
  serve_valid l (err e) = ret (err e)
  serve_valid l (ok u) = call (listen l) ret

  unfoldable pub serve_with_config :
      Gateway H R
      → MatchedService H
      → Duration
      → GatewayConfig
      → Prog Served (Result IoError (Unit {0}))
  unfolding validate_config handle
  serve_with_config g matched grace c =
      serve_valid (listener_of g matched grace c) (validate_config c)

  abbrev pub serve :
      Gateway H R → MatchedService H → Duration → Prog Served (Result IoError (Unit {0}))
  serve g matched grace = serve_with_config g matched grace default_config
