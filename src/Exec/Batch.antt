-- ===== src/Exec/Batch.antt =====
-- The pending batch of a command (src/exec/batch.rs), what costs are counted in it
-- (src/exec/template.rs), and the part of the sinks' `enqueue` that fills it (src/exec/ordered.rs,
-- src/parallel/batch.rs). `execdir_placeholder` is the platform's spelling of a path in its directory.
-- Lengths of strings in memory add up below the range of `usize`.
use rushfind.Prelude.{
  ℕ, Bool, true, false, not, ◌&&◌, List, [], ◌∷◌, ◌++◌, Bytes, length, is_empty, ltb, if◌then◌else◌,
  ◌+◌,
}
use rushfind.Plan.Types.{BatchedExecAction, ExecSemantics}

pub record ReadyBatch : Type 0 where
  pub spec : BatchedExecAction
  pub paths : List Bytes

pub record PendingBatch : Type 0 where
  pub spec : BatchedExecAction
  pub paths : List Bytes
  pub used_bytes : ℕ
  pub fixed_bytes : ℕ
  -- `BatchLimit`
  pub max_bytes : ℕ

unfoldable pub fixed_batch_cost : List Bytes → ℕ
fixed_batch_cost [] = 0
fixed_batch_cost (arg ∷ argv_prefix) = (length arg + 1) + fixed_batch_cost argv_prefix

-- `PendingBatch::new`
abbrev pub new_batch : BatchedExecAction → ℕ → ℕ → PendingBatch
new_batch spec max_bytes fixed_bytes = record {
  spec = spec;
  paths = [];
  used_bytes = fixed_bytes;
  fixed_bytes = fixed_bytes;
  max_bytes = max_bytes;
}

-- What `push` returns: a full batch that is to run, nothing, or "path is too large".
pub data Pushed : Type 0 where
  flushed : ReadyBatch → Pushed
  accepted too_large : Pushed

unfoldable pub take_ready : PendingBatch → ReadyBatch × PendingBatch
take_ready batch = (
  record { spec = batch.spec; paths = batch.paths },
  record batch { paths = []; used_bytes = batch.fixed_bytes },
)

-- The batches that run, in order; whether the path was too large; and the pending batch.
pub record Enqueued : Type 0 where
  pub run_batches : List ReadyBatch
  pub refused : Bool
  pub pending : PendingBatch

abbrev pub after_push : List ReadyBatch → Pushed × PendingBatch → Enqueued
after_push relieved (flushed ready, batch) = record {
  run_batches = relieved ++ (ready ∷ []);
  refused = false;
  pending = batch;
}
after_push relieved (accepted, batch) = record {
  run_batches = relieved;
  refused = false;
  pending = batch;
}
after_push relieved (too_large, batch) = record {
  run_batches = relieved;
  refused = true;
  pending = batch;
}

module _ (execdir_placeholder : Bytes → Bytes) where
  abbrev pub rendered_path : Bytes → ExecSemantics → Bytes
  rendered_path path ExecSemantics.normal = path
  rendered_path path ExecSemantics.dir_local = execdir_placeholder path

  unfoldable pub batched_path_cost : BatchedExecAction → Bytes → ℕ
  batched_path_cost spec path = length (rendered_path path spec.semantics) + 1

  unfoldable pub would_overflow : PendingBatch → Bytes → Bool
  unfolding batched_path_cost
  would_overflow batch path =
      ltb batch.max_bytes (batch.used_bytes + batched_path_cost batch.spec path)

  abbrev pub add_path : Bytes → PendingBatch → PendingBatch
  add_path path batch = record batch {
    paths = batch.paths ++ (path ∷ []);
    used_bytes = batch.used_bytes + batched_path_cost batch.spec path;
  }

  unfoldable pub push_path : Bytes → PendingBatch → Pushed × PendingBatch
  unfolding would_overflow take_ready batched_path_cost
  push_path path batch =
      if is_empty batch.paths && would_overflow batch path
      then (too_large, batch)
      else (if not (is_empty batch.paths) && would_overflow batch path
          then (flushed (take_ready batch).0, add_path path (take_ready batch).1)
          else (accepted, add_path path batch))

  -- `enqueue`: a batch that the path would overflow runs first. Running a batch and writing a diagnostic
  -- are outside the model, and so are the errors with which the source leaves at these two calls.
  unfoldable pub enqueue : Bytes → PendingBatch → Enqueued
  unfolding would_overflow take_ready push_path
  enqueue path batch =
      if not (is_empty batch.paths) && would_overflow batch path
      then after_push ((take_ready batch).0 ∷ []) (push_path path (take_ready batch).1)
      else after_push [] (push_path path batch)

  -- A sequence of paths for one command and directory; the batches that ran so far, and those to come.
  unfoldable pub enqueue_all : List Bytes → PendingBatch → List ReadyBatch × PendingBatch
  unfolding enqueue
  enqueue_all [] batch = ([], batch)
  enqueue_all (path ∷ paths) batch =
      let first = enqueue path batch in
      let rest = enqueue_all paths first.pending in (first.run_batches ++ rest.0, rest.1)
