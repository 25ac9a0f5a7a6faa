-- ===== src/Reconcile.antt =====
-- Reconciliation with YNAB (apps/server/backend/app/services/reconciliation.py): the
-- comparison of what was synced with what YNAB has, and the corrections.
pub mod Signature
pub mod Run
pub mod Once
pub mod Drift
