-- ===== src/Parallel/Tests.antt =====
-- Spilling and barriers at work (src/parallel/chunking.rs, src/parallel/postorder.rs).
use rushfind.Prelude.{◌+◌, leb, ◌∷◌, [], ℕ, true, ◌≡◌, refl, List}
use rushfind.Parallel.Chunking.{
  pushed_children, concat, finish, take, push_child, new_accumulator, run_chunks, ChunkStep,
}
use rushfind.Parallel.ChunkSizes.{run_chunks-sizes, EachLength, FullButLast}
use rushfind.Control.Policy.{max_one}
use rushfind.Parallel.Spills.{run_chunks-finish, count}

-- Three children kept, then chunks of two; the worker takes the chunks, and quits in the end.
abbrev reading : List (ChunkStep ℕ)
reading =
    push_child 1 true
    ∷ push_child 2 true
    ∷ push_child 3 true
    ∷ push_child 4 true
    ∷ push_child 5 true
    ∷ push_child 6 true
    ∷ take
    ∷ push_child 7 true
    ∷ push_child 8 true
    ∷ []

spills_in_twos : (run_chunks reading (new_accumulator ℕ 3 2, [])).1 ≡ (4 ∷ 5 ∷ []) ∷ []
unfolding run_chunks new_accumulator
spills_in_twos = refl

run_chunks-finish_example :
    let state = run_chunks reading (new_accumulator ℕ 3 2, []) in
    count (λ c. leb 5 c) (finish state.0).local_stack
      + count (λ c. leb 5 c) (concat (finish state.0).spilled_chunks)
      + count (λ c. leb 5 c) (concat state.1)
    ≡ count (λ c. leb 5 c) (pushed_children reading)
run_chunks-finish_example = run_chunks-finish (λ c. leb 5 c) 3 2 reading

run_chunks-sizes_example :
    let state = run_chunks reading (new_accumulator ℕ 3 2, []) in
    EachLength (λ n. n ≡ max_one 2) state.1
    × FullButLast (max_one 2) (finish state.0).spilled_chunks
run_chunks-sizes_example = run_chunks-sizes 3 2 reading
