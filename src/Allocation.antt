-- ===== src/Allocation.antt =====
-- The distribution of a receipt's items over categories
-- (apps/server/backend/app/services/allocation_workspace.py).
pub mod Division
pub mod Shares
pub mod Quotients
pub mod Weights
pub mod Raised
pub mod Sorted
pub mod Exact
pub mod Fair
pub mod Workspace
pub mod Greedy
pub mod Merge
pub mod Recompute
pub mod Suggested
pub mod Assigned
pub mod Lanes
pub mod Placed
