-- ===== src/Size.antt =====
-- `-size N[cwbkMG]` (src/size.rs).
pub mod Matcher
pub mod Laws
pub mod Tests
