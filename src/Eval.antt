-- ===== src/Eval.antt =====
-- Evaluating a planned expression at an entry (src/eval.rs, src/runtime_pipeline.rs).
pub mod Outcome
pub mod Predicate
pub mod Ran
pub mod Machine
pub mod Direct
pub mod Refinement
pub mod Tests
