-- ===== src/Walk.antt =====
-- The ordered walk over directories (src/walker.rs).
pub mod Types
pub mod Descend
pub mod Emit
pub mod Walker
pub mod Events
pub mod Follows
pub mod Refinement
pub mod Loops
pub mod Tests
