-- ===== src/Outbox.antt =====
-- outbox/outbox.service.ts: `Queue` is the Redis-backed queue with its in-memory fallback,
-- `ReplayAll` its replay, `Legacy` the admin API that stays in memory.
pub mod Queue
pub mod ReplayAll
pub mod Relay
pub mod Relaying
pub mod Legacy
pub mod Attempts
pub mod Invariant
pub mod Claims
pub mod Delivery
