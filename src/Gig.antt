-- ===== src/Gig.antt =====
-- gig/: `Store` and `Lifecycle` are gig.service.ts, `Expiry` is gig-expiry-worker.service.ts; the rest
-- proves.
pub mod Store
pub mod Lifecycle
pub mod Expiry
pub mod Machine
pub mod Resolution
pub mod Sweep
