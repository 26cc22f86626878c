-- ===== src/Control.antt =====
-- The policy of a run, and the control of the traversal by `-prune`.
pub mod Policy
pub mod Verdict
pub mod Skips
pub mod Truth
pub mod Tests
