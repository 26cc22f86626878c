-- ===== src/Numeric.antt =====
-- Numeric comparisons `N`, `+N` and `-N` (src/numeric.rs).
pub mod Comparison
pub mod Laws
