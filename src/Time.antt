-- ===== src/Time.antt =====
-- Points in time and the comparisons on them (src/time.rs).
pub mod Types
pub mod Amount
pub mod AmountLaws
pub mod Tests
