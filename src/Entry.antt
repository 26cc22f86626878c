-- ===== src/Entry.antt =====
-- Directory entries and their metadata (src/entry.rs, src/follow.rs, src/identity.rs).
pub mod Types
pub mod Context
