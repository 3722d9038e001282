-- ===== src/Profile.antt =====
-- Profiles of users: their store, the operations, the search, and the index of wallets.
pub mod Store
pub mod Service
pub mod Search
pub mod Index
pub mod Owners
pub mod Ratings
