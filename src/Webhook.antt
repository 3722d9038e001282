-- ===== src/Webhook.antt =====
-- Webhooks: which addresses they may reach, the endpoints and their delivery, and subscriptions.
pub mod Address
pub mod Blocks
pub mod Validation
pub mod Retry
pub mod Service
pub mod Subscriptions
pub mod Guarded
pub mod Sends
pub mod Delivery
pub mod Brackets
