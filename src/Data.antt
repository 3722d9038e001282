-- ===== src/Data.antt =====
-- The records and enumerations that the services share.
pub mod Escrow
pub mod Outbox
pub mod Dispute
pub mod Ingestion
pub mod Page
pub mod Paging
pub mod Gig
pub mod Idempotency
pub mod Reconciliation
pub mod Auth
pub mod Profile
pub mod Webhook
