-- ===== src/Breaker.antt =====
-- common/circuit-breaker/circuit-breaker.service.ts, over the circuit breakers of opossum.
pub mod Service
pub mod Stale
