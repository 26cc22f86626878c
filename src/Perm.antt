-- ===== src/Perm.antt =====
-- `-perm` (src/perm.rs).
pub mod Matcher
pub mod Argument
pub mod Octal
pub mod Tests
