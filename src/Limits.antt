-- ===== src/Limits.antt =====
-- The limits on the use of AI models (apps/server/shared/receipt_shared/ai): the configuration of limits,
-- the ledger of usage with its reservations, and the client that reserves, calls a provider and settles.
pub mod Usage
pub mod Config
pub mod Ledger
pub mod Client
pub mod Reserved
pub mod Refused
pub mod Settled
pub mod Bounds
