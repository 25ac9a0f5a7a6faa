-- ===== src/Tests.antt =====
-- Runs of the definitions at concrete inputs, and the theorems there.
pub mod Receipts
pub mod Economies
pub mod Shipping
pub mod Copies
pub mod Weeks
pub mod Writing
pub mod Spending
pub mod Reconciling
pub mod Learning
pub mod Allocating
pub mod Clicking
