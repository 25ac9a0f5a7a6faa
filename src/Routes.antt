-- ===== src/Routes.antt =====
-- The HTTP routes of a receipt (apps/server/backend/app/api/receipts.py).
pub mod Handlers
pub mod Claimed
pub mod Queued
