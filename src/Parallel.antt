-- ===== src/Parallel.antt =====
-- Parallel traversal: the spilling of children and the barriers of subtrees (src/parallel).
pub mod Chunking
pub mod Spills
pub mod ChunkSizes
pub mod Barriers
pub mod Releases
pub mod Tests
pub mod BarrierTests
