-- ===== src/Plan/Optimizer.antt =====
-- The optimizer: cheap predicates first in a chain (src/optimizer.rs).
pub mod Profile
pub mod Pass
pub mod Segments
pub mod Preserves
pub mod Sorted
pub mod KeepsActions
