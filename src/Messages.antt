-- ===== src/Messages.antt =====
-- The requests that pass through the gateway: `http::Request` with the entries of its extensions
-- that the gateway knows (src/admission.rs, src/proxy.rs), and the proxy's origin.
use http_gateway.Prelude.{ℕ, String, Option}
use http_gateway.External.Http.{Http}

module _ (H : Http) where
  open H use {Headers, HeaderValue, Uri, Body, Extensions}

  pub record AdmissionTicket : Type 0 where
    pub scope : HeaderValue
    pub token : HeaderValue
    pub origin : Option Uri

  -- The pooled HTTP client is left out: it has no state that the gateway reads.
  pub record FallbackProxy : Type 0 where
    pub scheme : String
    pub authority : Option String

  -- `upgrades` is the handle of the listener's `UpgradeTasks`.
  pub record Request : Type 0 where
    pub method : String
    pub uri : Uri
    pub version : ℕ
    pub headers : Headers
    pub body : Body
    pub ticket : Option AdmissionTicket
    pub recording_fallback : Option FallbackProxy
    pub upgrades : Option ℕ
    pub extensions : Extensions
