-- ===== src/Sync.antt =====
-- The gate before a write to YNAB (apps/server/backend/app/services/validation.py and
-- apps/server/backend/app/services/ynab.py).
pub mod Text
pub mod Memo
pub mod Draft
pub mod Validate
pub mod Gate
pub mod Exact
pub mod Agreement
pub mod ImportId
