-- ===== src/Tests/Admitting.antt =====
-- Runs of src/gateway.rs with a Redis provider.
use http_gateway.Prelude.{◌≡◌, refl, []}
use http_gateway.Admission.{ProviderRef}
use http_gateway.Effects.{Always}
use http_gateway.Effects.Monitors.{Obeys}
use http_gateway.Gateway.{external_service, sanitize}
use http_gateway.Redis.Acquire.{Provider}
use http_gateway.Admitting.{handle_admitting}
use http_gateway.Admitting.Protocol.{free, Requires, advance, handle_admitting-Obeys}
use http_gateway.Admitting.Reservations.{Way, handle_admitting-Way}
use http_gateway.Tests.Demo.{demo, table, json}
use http_gateway.Tests.Gateway.{gateway, gateway-IsBuilt, request}
use http_gateway.Tests.Redis.{provider}

abbrev provider_of : ProviderRef → Provider
provider_of p = provider

handle_admitting-Obeys_example :
    Always
      (λ log response.
        Obeys (Requires demo table json) (advance demo table json) (λ s. s ≡ free) free log)
      []
      (handle_admitting demo table json provider_of gateway
        (external_service demo)
        (request "/orders")
        "10.0.0.1")
handle_admitting-Obeys_example =
    handle_admitting-Obeys demo table json provider_of gateway (external_service demo)
      (request "/orders") "10.0.0.1"

handle_admitting-Way_example :
    Always
      (Way demo table json provider_of gateway (sanitize demo table (request "/orders")) "10.0.0.1")
      []
      (handle_admitting demo table json provider_of gateway
        (external_service demo)
        (request "/orders")
        "10.0.0.1")
handle_admitting-Way_example =
    handle_admitting-Way demo table json provider_of gateway (request "/orders") "10.0.0.1"
      gateway-IsBuilt refl
