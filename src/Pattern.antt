-- ===== src/Pattern.antt =====
-- Glob patterns (src/pattern).
pub mod Ir
pub mod Owned
pub mod Parse
pub mod Compiled
pub mod Escaped
pub mod Collapsed
pub mod Matches
pub mod Compiles
pub mod CaseFold
pub mod Tests
