-- ===== src/Stellar.antt =====
-- The endpoints of the Stellar network and their failover.
pub mod Failover
pub mod Switching
