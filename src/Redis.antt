-- ===== src/Redis.antt =====
-- src/redis_admission.rs and its modules: admission by a shared slot in Redis.
pub mod Utf8
pub mod Replies
pub mod Scripts
pub mod Discovery
pub mod Registration
pub mod Policy
pub mod Acquire
pub mod Lease
pub mod Slots
pub mod Execution
pub mod Receiver
pub mod Provider
