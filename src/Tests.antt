-- ===== src/Tests.antt =====
-- Concrete crates, data and runs of the gateway: the theorems at inputs that exercise the code.
pub mod Demo
mod Headers
pub mod Gateway
mod Proxy
pub mod Redis
pub mod Keys
mod Lease
pub mod Provider
pub mod Recorder
mod Loads
mod Admitting
mod Timing
mod Slots
mod Taking
