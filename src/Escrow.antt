-- ===== src/Escrow.antt =====
-- escrow/escrow.service.ts: `Store` reads and writes escrows, `Lifecycle` drives their status,
-- `Milestones` approves milestones; the rest proves.
pub mod Store
pub mod Lifecycle
pub mod Milestones
pub mod Local
pub mod Machine
pub mod Statuses
pub mod Remote
pub mod Settlement
pub mod Chain
