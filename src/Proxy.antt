-- ===== src/Proxy.antt =====
-- src/proxy.rs: the proxy to an HTTP origin. Headers, Forward and Replay are its parts.
pub mod Headers
pub mod Forward
pub mod Replay
pub mod Waits
