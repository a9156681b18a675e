-- ===== src/Awaits.antt =====
-- What `Gateway::handle` and the proxy wait for: admission by a provider under a timeout, the
-- caller's service, the HTTP client, the request's body, and a tunnel handed to a task.
use http_gateway.Prelude.{ℕ, String, Option, Result, List}
use http_gateway.External.Http.{Http, GatewayResponse}
use http_gateway.Messages.{Request}
use http_gateway.Admission.{AcquireOutcome, AdmissionError, ProviderRef}

module _ (H : Http) where
  -- `path` is given for `try_acquire_request`, and not for `try_acquire`.
  pub record AcquireCall : Type 0 where
    pub provider : ProviderRef
    pub scope : String
    pub path : Option String
    pub timeout_ms : ℕ

  -- A panic has no answer.
  pub data Await : Type 0 where
    acquire : AcquireCall → Await
    service : Request H → Await
    send : Request H → Await
    collect : H.Body → Await
    spawn_tunnel : Option ℕ → H.OnUpgrade → GatewayResponse H → Await
    panic : Await

  -- `hyper_util::client::legacy::Error`, by `is_connect`.
  pub data Sent : Type 0 where
    answered : GatewayResponse H → Sent
    connect_failed request_failed : Sent

  -- `none` where the timeout elapses, or where the body cannot be read.
  abbrev pub Answer : Await → Type 0
  Answer (acquire c) = Option (Result AdmissionError (AcquireOutcome H))
  Answer (service r) = GatewayResponse H
  Answer (send r) = Sent
  Answer (collect b) = Option (List ℕ × Option H.Headers)
  Answer (spawn_tunnel u d r) = Unit {0}
  Answer panic = ⊥
