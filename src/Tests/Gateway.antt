-- ===== src/Tests/Gateway.antt =====
-- Runs of src/config.rs and src/gateway.rs: one route with an admission, one without, one exclusion.
use http_gateway.Prelude.{
  false, String, ◌≡◌, refl, ◌↔◌, true, none, some, ok, err, [], ◌∷◌, All, get_elem?, trim, is_ascii,
}
use http_gateway.Messages.{Request}
use http_gateway.Admission.{AdmissionRegistry, get_provider}
use http_gateway.Effects.{Calls, Within, Always}
use http_gateway.Config.{
  load_routes, read, decode, AdmissionRule, RouteRule, RoutesConfig, RouteTable, compile,
  compile_exclusions, compile_routes, compile_methods, select, is_excluded, is_valid_rule, admits,
  map_error,
}
use http_gateway.Config.Compilation.{IsCompiled, compile_iff}
use http_gateway.Config.Selection.{selects, select-compile, select-admissions}
use http_gateway.Proxy.Forward.{new_proxy}
use http_gateway.Gateway.{
  Gateway, with_admission, check_providers, external_service, reject_matched, sanitize, handle,
}
use http_gateway.Gateway.Building.{IsBuilt, with_admission-IsBuilt}
use http_gateway.Gateway.Course.{Course, IsFallback, handle-Course}
use http_gateway.Gateway.Requests.{IsClean, handle-IsClean, handle_excluded}
use http_gateway.Gateway.Responses.{IsPublic, handle-IsPublic}
use http_gateway.Gateway.Panics.{IsCalm}
use http_gateway.Gateway.Origins.{new_origin}
use http_gateway.Gateway.Endings.{handle-Ends}
use http_gateway.Proxy.Forward.{new_proxy}
use http_gateway.Gateway.{OriginService, origin_call}
use http_gateway.Server.{default_config, serve_with_config}
use http_gateway.Server.Limits.{Serves, serve_with_config-Serves}
use http_gateway.Prelude.{from_secs}
use http_gateway.Tests.Demo.{demo, table, Location, absolute, local, text}

abbrev rule : AdmissionRule
rule = record { provider = "redis"; scope = "api"; acquire_timeout_ms = 50 }

abbrev config : RoutesConfig
config = record {
  routes =
      record { methods = "GET" ∷ []; path = "/orders"; admission = some rule }
      ∷ record { methods = []; path = "/status"; admission = none }
      ∷ [];
  exclude = record { methods = []; path = "/private" } ∷ [];
}

abbrev compiled : RouteTable demo table
compiled = record {
  index =
      record { path = "/orders"; methods = "GET" ∷ []; rank = 0 }
      ∷ record { path = "/status"; methods = []; rank = 0 }
      ∷ [];
  exclusions = record { path = "/private"; methods = []; rank = 0 } ∷ [];
  admissions = some rule ∷ none ∷ [];
}

compile-config : compile demo table config ≡ ok compiled
unfolding compile compile_routes compile_exclusions compile_methods admits is_valid_rule trim
    is_ascii map_error
compile-config = refl

abbrev upstream : Location
upstream = absolute "http" "upstream.test" "/"

abbrev registry : AdmissionRegistry
registry = ("redis", 7) ∷ []

abbrev pub gateway : Gateway demo table
gateway = record {
  routes = compiled;
  fallback = record { scheme = "http"; authority = some "upstream.test" };
  admission = registry;
  recording_admission = none;
  cors = none;
}

with_admission-config : with_admission demo table compiled upstream registry ≡ ok gateway
unfolding with_admission check_providers get_provider new_proxy
with_admission-config = refl

abbrev recording : Gateway demo table
recording = record gateway { recording_admission = some rule }

abbrev pub request : String → Request demo
request path = record {
  method = "GET";
  uri = local path;
  version = 11;
  headers =
      ("x-breeze-admission-scope", "api")
      ∷ ("x-breeze-response-cors", "{}")
      ∷ ("accept", "*/*")
      ∷ [];
  body = text "";
  ticket = none;
  recording_fallback = none;
  upgrades = none;
  extensions = 0;
}

pub gateway-IsBuilt : IsBuilt demo table gateway
gateway-IsBuilt =
    with_admission-IsBuilt demo table config compiled upstream registry gateway compile-config
      with_admission-config

with_admission-IsBuilt_example : IsBuilt demo table gateway
with_admission-IsBuilt_example =
    with_admission-IsBuilt demo table config compiled upstream registry gateway compile-config
      with_admission-config

compile_iff_example :
    (compile demo table config ≡ ok compiled) ↔ IsCompiled demo table config compiled
compile_iff_example = compile_iff demo table config compiled

select-compile_example : select demo table compiled "GET" "/orders" ≡ some 0
select-compile_example = select-compile demo table config compiled "GET" "/orders" compile-config

select-admissions_example :
    (r : RouteRule) × (get_elem? config.routes 0 ≡ some r)
    × (get_elem? compiled.admissions 0 ≡ some r.admission)
    × (selects demo table r.methods r.path "GET" "/orders" ≡ true)
    × (admits demo r.admission ≡ true)
unfolding select is_excluded
select-admissions_example =
    select-admissions demo table config compiled "GET" "/orders" 0 compile-config refl

handle-Course_example :
    Always
      (Course demo table gateway (sanitize demo table (request "/orders")) "10.0.0.1")
      []
      (handle demo table gateway (external_service demo) (request "/orders") "10.0.0.1")
handle-Course_example =
    handle-Course demo table gateway gateway-IsBuilt "10.0.0.1" (request "/orders") refl

handle-IsClean_example :
    Always
      (λ log response. All (λ ev. IsClean demo table ev.0) log)
      []
      (handle demo table gateway (external_service demo) (request "/orders") "10.0.0.1")
handle-IsClean_example =
    handle-IsClean demo table gateway (request "/orders") "10.0.0.1" gateway-IsBuilt refl

handle_excluded_example :
    Always
      (IsFallback demo table gateway (sanitize demo table (request "/private")) "10.0.0.1")
      []
      (handle demo table gateway (external_service demo) (request "/private") "10.0.0.1")
unfolding is_excluded
handle_excluded_example =
    handle_excluded demo table gateway (request "/private") "10.0.0.1" gateway-IsBuilt refl refl

handle-IsPublic_example :
    Always
      (λ log response. IsPublic demo table response)
      []
      (handle demo table gateway (reject_matched demo) (request "/status") "10.0.0.1")
handle-IsPublic_example =
    handle-IsPublic demo table gateway (reject_matched demo) (request "/status") "10.0.0.1" refl

serve_with_config-Serves_example :
    Always
      (Serves demo table gateway (reject_matched demo) (from_secs 5) default_config)
      []
      (serve_with_config demo table gateway (reject_matched demo) (from_secs 5) default_config)
serve_with_config-Serves_example =
    serve_with_config-Serves demo table gateway (reject_matched demo) (from_secs 5) default_config

abbrev origin_service : OriginService demo
origin_service = record {
  origin = record { scheme = "http"; authority = some "upstream.test" };
  response_cors = false;
}

new_origin-origin_service : new_origin demo upstream ≡ ok origin_service
unfolding new_proxy
new_origin-origin_service = refl

handle-Ends_example :
    Within 6
      (handle demo table gateway (origin_call demo origin_service) (request "/orders") "10.0.0.1")
    × Calls
        (IsCalm demo table)
        (handle demo table gateway (origin_call demo origin_service) (request "/orders") "10.0.0.1")
handle-Ends_example =
    handle-Ends demo table gateway upstream origin_service (request "/orders") "10.0.0.1"
      gateway-IsBuilt new_origin-origin_service refl

load_routes-config :
    (load_routes demo table (λ path. some "routes = []") (λ text. some config) "routes.toml"
      ≡ ok config)
    × (load_routes demo table (λ path. none) (λ text. some config) "routes.toml"
        ≡ err (read "routes.toml"))
    × (load_routes demo table (λ path. some "?") (λ text. none) "routes.toml"
        ≡ err (decode "routes.toml"))
unfolding load_routes
load_routes-config = (refl, refl, refl)
