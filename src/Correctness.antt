-- ===== src/Correctness.antt =====
-- The fire and water economy of the correctness game (apps/server/backend/app/services/correctness.py)
-- and its reconstruction from the event log (apps/server/backend/app/services/game.py).
pub mod Tables
pub mod Store
pub mod Actions
pub mod History
pub mod Rows
pub mod Log
pub mod Replayed
pub mod Parity
pub mod Economy
pub mod Play
pub mod Reservoir
pub mod Retry
