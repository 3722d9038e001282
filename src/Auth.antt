-- ===== src/Auth.antt =====
-- auth/: `Nonces` is nonce-store.service.ts, `Tokens` is refresh-token-store.service.ts; `Once` and `Spent` prove.
pub mod Nonces
pub mod Tokens
pub mod Once
pub mod Spent
