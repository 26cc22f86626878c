-- ===== src/Parallel/ChunkSizes.antt =====
-- The size of the chunks (src/parallel/chunking.rs).
use rushfind.Prelude.{
  length-append, leb, ltb, if_cases, if_known, refl, is_empty, arith, ◌≡◌, ℕ, true, not, ◌||◌, ◌≤◌,
  ◌<◌, List, [], ◌∷◌, ◌++◌, length,
}
use rushfind.Parallel.Chunking.{
  quit, take, push_child, spill, keep_local, take_spilled_chunks, observe_quit, push_child, push,
  ChunkStep, ChunkAccumulator, new_accumulator, run_chunks, step_chunks, finish,
}
use rushfind.Control.Policy.{max_one}

-- The length of each of the lists has the property.
abbrev pub EachLength : {A : Type 0} → (ℕ → Type 0) → List (List A) → Type 0
EachLength P [] = Unit
EachLength P (xs ∷ xss) = P (length xs) × EachLength P xss

-- Each of the lists but the last has that length, and the last has at least one item and no more.
abbrev pub FullButLast : {A : Type 0} → ℕ → List (List A) → Type 0
FullButLast size [] = Unit
FullButLast size (xs ∷ []) = (1 ≤ length xs) × (length xs ≤ size)
FullButLast size (xs ∷ ys ∷ rest) = (length xs ≡ size) × FullButLast size (ys ∷ rest)

module _ {A : Type 0} where
  EachLength-append :
      (P : ℕ → Type 0) (xss yss : List (List A))
      → EachLength P xss
      → EachLength P yss
      → EachLength P (xss ++ yss)
  EachLength-append P [] yss h k = k
  EachLength-append P (xs ∷ xss) yss h k = (h.0, EachLength-append P xss yss h.1 k)

  FullButLast-full :
      (size : ℕ) (xss : List (List A))
      → 1 ≤ size
      → EachLength (λ n. n ≡ size) xss
      → FullButLast size xss
  FullButLast-full size [] one h = tt
  FullButLast-full size (xs ∷ []) one h = (omega (arith, h.0), omega (arith, h.0))
  FullButLast-full size (xs ∷ ys ∷ rest) one h = (h.0, FullButLast-full size (ys ∷ rest) one (h.1))

  -- One more chunk at the end of full ones.
  FullButLast-append :
      (size : ℕ) (xss : List (List A)) (short : List A)
      → EachLength (λ n. n ≡ size) xss
      → 1 ≤ length short
      → length short ≤ size
      → FullButLast size (xss ++ short ∷ [])
  FullButLast-append size [] short h one le = (one, le)
  FullButLast-append size (xs ∷ []) short h one le = (h.0, (one, le))
  FullButLast-append size (xs ∷ ys ∷ rest) short h one le =
      (h.0, FullButLast-append size (ys ∷ rest) short (h.1) one le)

  -- The buffer is short of a chunk, and every chunk that was spilled or taken is a full one.
  abbrev pub IsChunked : ℕ → ChunkAccumulator A × List (List A) → Type 0
  IsChunked size (acc, taken) =
      (acc.chunk_size ≡ size)
      × (1 ≤ size)
      × (length acc.spill_buffer < size)
      × EachLength (λ n. n ≡ size) acc.spilled_chunks
      × EachLength (λ n. n ≡ size) taken

  step_chunks-IsChunked :
      (size : ℕ) (step : ChunkStep A) (acc : ChunkAccumulator A) (taken : List (List A))
      → IsChunked size (acc, taken)
      → IsChunked size (step_chunks step (acc, taken))
  unfolding step_chunks push observe_quit take_spilled_chunks keep_local spill
  step_chunks-IsChunked size (push_child child may_split) acc taken
        (e, one, buffer, chunks, takes) =
      if_cases (λ after. IsChunked size (after, taken))
        (not may_split || ltb (length acc.local_stack) acc.split_threshold) _ _
        (e, one, buffer, chunks, takes)
        (if_known (λ after. IsChunked size (after, taken))
          (leb acc.chunk_size (length (acc.spill_buffer ++ (child ∷ [])))) _ _
          (λ full. (
            e,
            one,
            one,
            EachLength-append (λ n. n ≡ size) acc.spilled_chunks
                ((acc.spill_buffer ++ (child ∷ [])) ∷ []) chunks
                (ground (arith, length-append acc.spill_buffer (child ∷ [])), tt),
            takes,
          ))
          (λ short. (e, one, ground arith, chunks, takes)))
  step_chunks-IsChunked size quit acc taken (e, one, buffer, chunks, takes) =
      (e, one, one, tt, takes)
  step_chunks-IsChunked size take acc taken (e, one, buffer, chunks, takes) =
      (e, one, buffer, tt, EachLength-append (λ n. n ≡ size) taken acc.spilled_chunks takes chunks)

  run_chunks-IsChunked :
      (size : ℕ) (steps : List (ChunkStep A)) (acc : ChunkAccumulator A) (taken : List (List A))
      → IsChunked size (acc, taken)
      → IsChunked size (run_chunks steps (acc, taken))
  unfolding run_chunks step_chunks
  run_chunks-IsChunked size [] acc taken h = h
  run_chunks-IsChunked size (push_child child may_split ∷ steps) acc taken h =
      run_chunks-IsChunked size steps _ _
        (step_chunks-IsChunked size (push_child child may_split) acc taken h)
  run_chunks-IsChunked size (quit ∷ steps) acc taken h =
      run_chunks-IsChunked size steps _ _ (step_chunks-IsChunked size quit acc taken h)
  run_chunks-IsChunked size (take ∷ steps) acc taken h =
      run_chunks-IsChunked size steps _ _ (step_chunks-IsChunked size take acc taken h)

  finish-FullButLast :
      (size : ℕ) (acc : ChunkAccumulator A) (taken : List (List A))
      → IsChunked size (acc, taken)
      → FullButLast size (finish acc).spilled_chunks
  unfolding finish
  finish-FullButLast size acc taken (e, one, buffer, chunks, takes) =
      if_known (FullButLast size) (not (is_empty acc.spill_buffer)) _ _
        (λ filled.
          FullButLast-append size acc.spilled_chunks acc.spill_buffer chunks
            (one_if_filled acc.spill_buffer filled) (omega arith))
        (λ _. FullButLast-full size acc.spilled_chunks one chunks)
    where
      one_if_filled : (xs : List A) → not (is_empty xs) ≡ true → 1 ≤ length xs
      one_if_filled [] filled = cc
      one_if_filled (x ∷ xs) filled = omega arith

  chunks_taken :
      (size : ℕ) (acc : ChunkAccumulator A) (taken : List (List A))
      → IsChunked size (acc, taken)
      → EachLength (λ n. n ≡ size) taken
  chunks_taken size acc taken (e, one, buffer, chunks, takes) = takes

-- Every chunk that the worker takes while it reads holds exactly the size asked for, or one child where
-- that is zero; every chunk of the plan but the last holds as many, and the last holds between one child
-- and as many.
pub run_chunks-sizes :
    {A : Type 0} (split_threshold chunk_size : ℕ) (steps : List (ChunkStep A))
    → let state = run_chunks steps (new_accumulator A split_threshold chunk_size, []) in
      EachLength (λ n. n ≡ max_one chunk_size) state.1
      × FullButLast (max_one chunk_size) (finish state.0).spilled_chunks
unfolding new_accumulator
run_chunks-sizes split_threshold chunk_size steps =
    let state = run_chunks steps (new_accumulator _ split_threshold chunk_size, []) in
    (
      chunks_taken (max_one chunk_size) state.0 state.1 chunked,
      finish-FullButLast (max_one chunk_size) state.0 state.1 chunked,
    )
  where
    one : 1 ≤ max_one chunk_size
    one = ground arith

    chunked :
        IsChunked
          (max_one chunk_size)
          (run_chunks steps (new_accumulator _ split_threshold chunk_size, []))
    chunked =
        run_chunks-IsChunked (max_one chunk_size) steps
          (new_accumulator _ split_threshold chunk_size) [] (refl, one, one, tt, tt)
