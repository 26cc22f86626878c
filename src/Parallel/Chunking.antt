-- ===== src/Parallel/Chunking.antt =====
-- The accumulator of a directory's children (src/parallel/chunking.rs), over any type of child, and its
-- uses by a worker as steps.
use rushfind.Prelude.{
  ℕ, Bool, not, ◌||◌, List, [], ◌∷◌, ◌++◌, length, ltb, leb, is_empty, if◌then◌else◌,
}
use rushfind.Control.Policy.{max_one}

pub record ChunkPlan (A : Type 0) : Type 0 where
  pub local_stack : List A
  pub spilled_chunks : List (List A)

pub record ChunkAccumulator (A : Type 0) : Type 0 where
  pub split_threshold : ℕ
  pub chunk_size : ℕ
  pub local_stack : List A
  pub spill_buffer : List A
  pub spilled_chunks : List (List A)

-- `extend` with each chunk in turn
abbrev pub concat : {A : Type 0} → List (List A) → List A
concat [] = []
concat (chunk ∷ chunks) = chunk ++ concat chunks

-- `ChunkAccumulator::new`
unfoldable pub new_accumulator : (A : Type 0) → ℕ → ℕ → ChunkAccumulator A
new_accumulator A split_threshold chunk_size = record {
  split_threshold = split_threshold;
  chunk_size = max_one chunk_size;
  local_stack = [];
  spill_buffer = [];
  spilled_chunks = [];
}

-- What a worker does with the accumulator while it reads a directory.
pub data ChunkStep (A : Type 0) : Type 0 where
  push_child : A → Bool → ChunkStep A
  quit take : ChunkStep A

module _ {A : Type 0} where
  unfoldable pub keep_local : A → ChunkAccumulator A → ChunkAccumulator A
  keep_local child acc = record acc { local_stack = acc.local_stack ++ (child ∷ []) }

  unfoldable pub spill : A → ChunkAccumulator A → ChunkAccumulator A
  spill child acc =
      let buffer = acc.spill_buffer ++ (child ∷ []) in
      if leb acc.chunk_size (length buffer)
      then record acc { spill_buffer = []; spilled_chunks = acc.spilled_chunks ++ (buffer ∷ []) }
      else record acc { spill_buffer = buffer }

  unfoldable pub push : A → Bool → ChunkAccumulator A → ChunkAccumulator A
  unfolding keep_local spill
  push child may_split acc =
      if not may_split || ltb (length acc.local_stack) acc.split_threshold
      then keep_local child acc
      else spill child acc

  unfoldable pub observe_quit : ChunkAccumulator A → ChunkAccumulator A
  observe_quit acc = record acc {
    local_stack = (acc.local_stack ++ concat acc.spilled_chunks) ++ acc.spill_buffer;
    spill_buffer = [];
    spilled_chunks = [];
  }

  unfoldable pub take_spilled_chunks : ChunkAccumulator A → List (List A) × ChunkAccumulator A
  take_spilled_chunks acc = (acc.spilled_chunks, record acc { spilled_chunks = [] })

  unfoldable pub finish : ChunkAccumulator A → ChunkPlan A
  finish acc = record {
    local_stack = acc.local_stack;
    spilled_chunks =
        if not (is_empty acc.spill_buffer)
        then acc.spilled_chunks ++ (acc.spill_buffer ∷ [])
        else acc.spilled_chunks;
  }

  -- The accumulator, and the chunks that were taken and queued.
  unfoldable pub step_chunks :
      ChunkStep A → ChunkAccumulator A × List (List A) → ChunkAccumulator A × List (List A)
  unfolding push observe_quit take_spilled_chunks
  step_chunks (push_child child may_split) (acc, taken) = (push child may_split acc, taken)
  step_chunks quit (acc, taken) = (observe_quit acc, taken)
  step_chunks take (acc, taken) =
      ((take_spilled_chunks acc).1, taken ++ (take_spilled_chunks acc).0)

  unfoldable pub run_chunks :
      List (ChunkStep A) → ChunkAccumulator A × List (List A) → ChunkAccumulator A × List (List A)
  unfolding step_chunks
  run_chunks [] state = state
  run_chunks (step ∷ steps) state = run_chunks steps (step_chunks step state)

  abbrev pub pushed_children : List (ChunkStep A) → List A
  pushed_children [] = []
  pushed_children (push_child child may_split ∷ steps) = child ∷ pushed_children steps
  pushed_children (quit ∷ steps) = pushed_children steps
  pushed_children (take ∷ steps) = pushed_children steps
