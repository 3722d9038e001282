-- ===== src/Dedup.antt =====
-- Deduplication: of the broadcasts of the gateway of milestones and of the notifications of a dispute.
pub mod Gateway
pub mod Notifications
pub mod Release
pub mod Window
