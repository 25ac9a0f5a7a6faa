-- ===== src/Learned.antt =====
-- What the program learns from syncs: the account of a card and the category of a payee
-- (apps/server/backend/app/services/card_mapping.py and payee_memory.py).
pub mod Table
pub mod Cards
pub mod Payees
