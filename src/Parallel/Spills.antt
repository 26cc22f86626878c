-- ===== src/Parallel/Spills.antt =====
-- No child is lost or doubled by the spilling, and the chunks have the size asked for
-- (src/parallel/chunking.rs).
use rushfind.Prelude.{
  if_known, is_empty, leb, ltb, if_cases, append-nil, ap, refl, ◌∙◌, arith, ◌+◌, ◌≡◌, if◌then◌else◌,
  ℕ, Bool, false, not, ◌||◌, List, [], ◌∷◌, ◌++◌, length,
}
use rushfind.Parallel.Chunking.{
  quit, take, push_child, spill, keep_local, take_spilled_chunks, push_child, observe_quit,
  pushed_children, push, ChunkStep, finish, step_chunks, concat, run_chunks, new_accumulator,
  ChunkAccumulator,
}

-- How many of the children have the property.
abbrev pub count : {A : Type 0} → (A → Bool) → List A → ℕ
count p [] = 0
count p (x ∷ xs) = (if p x then 1 else 0) + count p xs

module _ {A : Type 0} where
  count-append : (p : A → Bool) (xs ys : List A) → count p (xs ++ ys) ≡ count p xs + count p ys
  count-append p [] ys = omega arith
  count-append p (x ∷ xs) ys = omega (arith, count-append p xs ys)

  count-concat_append :
      (p : A → Bool) (xss yss : List (List A))
      → count p (concat (xss ++ yss)) ≡ count p (concat xss) + count p (concat yss)
  count-concat_append p [] yss = omega arith
  count-concat_append p (xs ∷ xss) yss = omega (
    arith,
    count-concat_append p xss yss,
    count-append p xs (concat (xss ++ yss)),
    count-append p xs (concat xss),
  )

  count_chunk :
      (p : A → Bool) (xss : List (List A)) (chunk : List A)
      → count p (concat (xss ++ (chunk ∷ []))) ≡ count p (concat xss) + count p chunk
  count_chunk p xss chunk =
      count-concat_append p xss (chunk ∷ [])
      ∙ ap (λ n. count p (concat xss) + n) (ap (count p) (append-nil chunk))

  -- Of the children in the accumulator and in the chunks taken, how many have the property.
  held : (A → Bool) → ChunkAccumulator A × List (List A) → ℕ
  held p (acc, taken) =
      count p acc.local_stack
      + count p acc.spill_buffer
      + count p (concat acc.spilled_chunks)
      + count p (concat taken)

  held-step :
      (p : A → Bool) (step : ChunkStep A) (acc : ChunkAccumulator A) (taken : List (List A))
      → held p (step_chunks step (acc, taken))
        ≡ held p (acc, taken) + count p (pushed_children (step ∷ []))
  unfolding step_chunks held push observe_quit take_spilled_chunks keep_local spill
  held-step p (push_child child may_split) acc taken =
      if_cases (λ after. held p (after, taken) ≡ held p (acc, taken) + count p (child ∷ []))
        (not may_split || ltb (length acc.local_stack) acc.split_threshold) _ _
        (omega (arith, count-append p acc.local_stack (child ∷ [])))
        (if_cases (λ after. held p (after, taken) ≡ held p (acc, taken) + count p (child ∷ []))
          (leb acc.chunk_size (length (acc.spill_buffer ++ (child ∷ [])))) _ _
          (omega (
            arith,
            count_chunk p acc.spilled_chunks (acc.spill_buffer ++ (child ∷ [])),
            count-append p acc.spill_buffer (child ∷ []),
          ))
          (omega (arith, count-append p acc.spill_buffer (child ∷ []))))
  held-step p quit acc taken = omega (
    arith,
    count-append p (acc.local_stack ++ concat acc.spilled_chunks) acc.spill_buffer,
    count-append p acc.local_stack (concat acc.spilled_chunks),
  )
  held-step p take acc taken = omega (arith, count-concat_append p taken acc.spilled_chunks)

  held-run :
      (p : A → Bool) (steps : List (ChunkStep A)) (acc : ChunkAccumulator A) (taken : List (List A))
      → held p (run_chunks steps (acc, taken))
        ≡ held p (acc, taken) + count p (pushed_children steps)
  unfolding run_chunks step_chunks
  held-run p [] acc taken = omega arith
  held-run p (push_child child may_split ∷ steps) acc taken = omega (
    arith,
    held-run p steps (push child may_split acc) taken,
    held-step p (push_child child may_split) acc taken,
  )
  held-run p (quit ∷ steps) acc taken =
      omega (arith, held-run p steps (observe_quit acc) taken, held-step p quit acc taken)
  held-run p (take ∷ steps) acc taken = omega (
    arith,
    held-run p steps (take_spilled_chunks acc).1 (taken ++ (take_spilled_chunks acc).0),
    held-step p take acc taken,
  )

  count-is_empty : (p : A → Bool) (xs : List A) → not (is_empty xs) ≡ false → count p xs ≡ 0
  count-is_empty p [] e = refl
  count-is_empty p (x ∷ xs) e = cc

  held-finish :
      (p : A → Bool) (acc : ChunkAccumulator A)
      → count p (finish acc).local_stack + count p (concat (finish acc).spilled_chunks)
        ≡ count p acc.local_stack + count p acc.spill_buffer + count p (concat acc.spilled_chunks)
  unfolding finish
  held-finish p acc =
      if_known
        (λ chunks.
          count p acc.local_stack + count p (concat chunks)
          ≡ count p acc.local_stack
            + count p acc.spill_buffer
            + count p (concat acc.spilled_chunks))
        (not (is_empty acc.spill_buffer)) _ _
        (λ _. omega (arith, count_chunk p acc.spilled_chunks acc.spill_buffer))
        (λ e. omega (arith, count-is_empty p acc.spill_buffer e))

-- Whatever the worker pushes, takes and drains, the plan and the chunks taken hold each child that was
-- pushed as often as it was pushed: for every property, as many children of the plan and of the chunks
-- have it as children that were pushed.
pub run_chunks-finish :
    {A : Type 0} (p : A → Bool) (split_threshold chunk_size : ℕ) (steps : List (ChunkStep A))
    → let state = run_chunks steps (new_accumulator A split_threshold chunk_size, []) in
      count p (finish state.0).local_stack
        + count p (concat (finish state.0).spilled_chunks)
        + count p (concat state.1)
      ≡ count p (pushed_children steps)
unfolding new_accumulator held
run_chunks-finish p split_threshold chunk_size steps = omega (
  arith,
  held-run p steps (new_accumulator _ split_threshold chunk_size) [],
  held-finish p (run_chunks steps (new_accumulator _ split_threshold chunk_size, [])).0,
)
