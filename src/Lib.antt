-- ===== src/Lib.antt =====
-- rushfind, a find(1) in Rust: a model of its expression engine, and what holds of it.
--
-- The program parses a command line (src/parser.rs), plans it as a `RuntimeExpr` (src/planner.rs) whose
-- chains are reordered by cost (src/optimizer.rs), walks the start paths (src/walker.rs), and evaluates
-- the expression on every entry (src/eval.rs, src/runtime_pipeline.rs). The evaluation stops at each
-- action and is resumed with the action's outcome, so that a sink may run actions in another thread and
-- in the order of the walk (src/ordered), or hand them on from parallel workers (src/parallel).
--
-- The parts and their files:
--   Command      the syntax, `parse_command` and what it calls (src/ast.rs, src/args.rs,
--                src/parser.rs), and a printer of the syntax to state what is read back
--   Walk         `walk_ordered_with_backend` and `should_descend_directory` (src/walker.rs), and
--                the events of a tree as a recursive description
--   Pattern      globs: `compile_pattern` and `matches_from` (src/pattern)
--   Numeric, Size  the arguments of -links, -inum, -size and their tests (src/numeric.rs, src/size.rs)
--   Perm         the modes of -perm, octal and symbolic, and their matcher (src/perm.rs)
--   FileFlags    the matcher of -flags (src/file_flags.rs)
--   Time         timestamps, -newer, and reading the amounts of time tests (src/time.rs)
--   Entry        `EntryContext` under the follow modes (src/entry.rs, src/platform/filesystem.rs)
--   Plan         `plan_command`, which lowers a command to an `ExecutionPlan` (src/planner.rs,
--                src/platform/capabilities.rs), and in Plan/Optimizer the pass (src/optimizer.rs)
--   Eval         `evaluate_predicate`, `step_expr`, `finish_with_outcome` and the loop of
--                `evaluate_outcome_with_context` (src/eval.rs, src/runtime_pipeline.rs)
--   Control      `RuntimePolicy`, the traversal plan and its verdicts (src/runtime_policy.rs,
--                src/traversal_control.rs)
--   Ordered      `OrderedReadyQueue` (src/runtime_pipeline.rs), and the evaluators and the committing
--                loop of `run_ordered_pipeline` (src/ordered/engine.rs)
--   Parallel     `ChunkAccumulator` and `BarrierTable` (src/parallel/chunking.rs,
--                src/parallel/postorder.rs)
--   Exec         the arguments of commands (src/exec/template.rs), `PendingBatch` and `enqueue`
--                (src/exec/batch.rs, src/exec/ordered.rs)
--   Std          integer parsing, and the equality of paths on Unix, as the standard library documents
--                them
--   Prelude, Diagnostics  shared names, and errors as values (src/diagnostics.rs)
-- A file's name for an operation is the source's. State is a record that is passed on; an error is the
-- `err` of `Result`; a sink is a function from an action and a state to an outcome and a state. Concurrent
-- parts are sequences of operations in any order, each of them atomic under its lock. Strings are lists
-- of bytes, and a message is a constructor with the values that the text shows.
--
-- Fuel: the parser has four units for each argument and four more, of which each argument that is read
-- and each level of the grammar takes one; the loop of the walk has a unit for each frame, and how many
-- are enough follows from the tree; `compile_loop` has the pattern's length, since each round takes a
-- byte; `step_expr` and `finish_with_outcome` have the weight of what is left, which every call lowers;
-- the driving loop has the weight of the expression, as does `commit` for each entry; `commit_ready` has
-- the number of buffered items. Sequence numbers and barrier numbers are 64-bit words that wrap, and a
-- number read from an argument is refused beyond the source's type; lengths of strings are not bounded, since strings in memory do not reach the range of
-- `usize`.
--
-- Not modelled: the parallel walk, printing, regular expressions, mounts and accounts, running of
-- commands, and the system calls. What a predicate asks of them is a field of the record `Services`, of
-- `PlanServices` where it is planned, or of `EntryContext`, for which any answers are allowed: among
-- these fields are the arithmetic of -mtime, -mmin and -used, and the classes of reparse tags. The file
-- system stands still during a walk: the backend of the walk is a record of functions.
pub mod Prelude
pub mod Diagnostics
pub mod Pattern
pub mod Std
pub mod Numeric
pub mod Size
pub mod Time
pub mod Perm
pub mod FileFlags
pub mod Entry
pub mod Plan
pub mod Eval
pub mod Control
pub mod Parallel
pub mod Ordered
pub mod Exec
pub mod Command
pub mod Walk
