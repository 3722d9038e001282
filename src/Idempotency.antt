-- ===== src/Idempotency.antt =====
-- Idempotency of requests: their keys in Redis, and the interceptor that answers by them.
pub mod Keys
pub mod Interceptor
pub mod Server
pub mod Taken
pub mod Replay
pub mod Again
