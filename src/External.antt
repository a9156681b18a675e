-- ===== src/External.antt =====
-- The crates that the gateway calls and does not contain, as interfaces: `http`, `hyper` and
-- `brz-http-cors` (Http), `brz-http-router` (Router), `brz-redis` (Redis), `serde_json` (Json). Each is a record of
-- types, operations and documented laws that the modules of the gateway take as a parameter.
pub mod Http
pub mod Router
pub mod Redis
pub mod Json
