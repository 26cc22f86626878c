-- ===== src/Ordered.antt =====
-- Ordered runs: evaluations that are begun in any order are committed in the order of the walk.
pub mod ReadyQueue
pub mod Recorded
pub mod InOrder
pub mod Engine
pub mod Commits
pub mod Tests
