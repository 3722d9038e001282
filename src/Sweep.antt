-- ===== src/Sweep.antt =====
-- common/concurrency/map-with-concurrency.ts: a worker over items, with a limited number in flight.
pub mod Runners
pub mod Completion
