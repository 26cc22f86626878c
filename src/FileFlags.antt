-- ===== src/FileFlags.antt =====
-- `-flags` (src/file_flags.rs).
pub mod Matcher
