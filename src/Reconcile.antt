-- ===== src/Reconcile.antt =====
-- escrow-reconciliation/: `Store` is escrow-reconciliation-state.store.ts, `Service` is
-- escrow-reconciliation.service.ts; the rest proves.
pub mod Store
pub mod Service
pub mod Agreement
