-- ===== src/Ynab.antt =====
-- The write path of a receipt to YNAB (apps/server/backend/app/services/ynab.py), over a client whose
-- answers are a parameter (`YNABClient` of apps/server/shared/receipt_shared/ynab_client.py).
pub mod Remote
pub mod Compare
pub mod Requests
pub mod Session
pub mod Writes
pub mod Sync
pub mod Calls
pub mod Budget
pub mod Runs
pub mod Live
pub mod Safety
pub mod Outcome
pub mod Updates
