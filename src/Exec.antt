-- ===== src/Exec.antt =====
-- Batched commands: `-exec ... +` (src/exec/batch.rs, src/exec/ordered.rs).
pub mod Batch
pub mod Template
pub mod Substitution
pub mod Enqueue
pub mod Batches
pub mod Tests
