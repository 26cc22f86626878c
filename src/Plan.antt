-- ===== src/Plan.antt =====
-- The planned expression and what is derived from it (src/planner.rs, src/optimizer.rs,
-- src/runtime_policy.rs).
pub mod Types
pub mod Expr
pub mod Actions
pub mod Optimizer
pub mod Capabilities
pub mod State
pub mod LowerPredicate
pub mod LowerAction
pub mod Planner
pub mod Changes
pub mod PredicateChanges
pub mod OutputChanges
pub mod ActionChanges
pub mod PlanChanges
pub mod Tests
