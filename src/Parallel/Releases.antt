-- ===== src/Parallel/Releases.antt =====
-- A barrier is released by the last of the chunks it waits for, once (src/parallel/postorder.rs).
use rushfind.Prelude.{
  ap, next_word_small, if_known, subst, ◌∙◌, ◌^◌, lookup-remove_same, lookup-insert_same, refl,
  lookup-remove_other, ◌+◌, lookup-insert_other, suc, arith, ◌≢◌, ◌-◌, ◌≡◌, ℕ, Option, none, some,
  List, [], ◌∷◌, lookup, ltb, ◌==◌, if◌then◌else◌, length, ◌≤◌, ◌<◌,
}
use rushfind.Parallel.Barriers.{
  finish_spilled_chunk, remaining, begin_record, step_barrier, run_barriers, decremented,
  release_of, finish, batch, finish_record, directory, begin, BarrierStep, BarrierTable,
  BarrierRecord,
}

module _ {Entry : Type 0} where
  abbrev with_remaining : ℕ → BarrierRecord Entry → BarrierRecord Entry
  with_remaining n (directory entry chunks parent) = directory entry n parent
  with_remaining n (batch roots parent) = batch n parent

  -- How often the barrier was finished.
  abbrev pub finishes : ℕ → List (BarrierStep Entry) → ℕ
  finishes barrier [] = 0
  finishes barrier (begin _ ∷ steps) = finishes barrier steps
  finishes barrier (finish other ∷ steps) =
      (if other == barrier then 1 else 0) + finishes barrier steps

  -- What the table holds for a barrier of n chunks after k of them.
  counted : ℕ → ℕ → BarrierRecord Entry → Option (BarrierRecord Entry)
  counted n k found = if ltb k n then some (with_remaining (n - k) found) else none

  finish_record-same :
      (barrier n k : ℕ) (table : BarrierTable Entry) (found : BarrierRecord Entry)
      → lookup barrier table.records ≡ counted n k found
      → lookup barrier (finish_record barrier table (counted n k found)).1.records
        ≡ counted n (suc k) found
  unfolding counted
  finish_record-same barrier n k table (directory entry chunks parent) e = ground (
    arith,
    lookup-insert_same barrier (directory entry (n - k - 1) parent) table.records,
    lookup-remove_same barrier table.records,
  )
  finish_record-same barrier n k table (batch roots parent) e = ground (
    arith,
    lookup-insert_same barrier (batch (n - k - 1) parent) table.records,
    lookup-remove_same barrier table.records,
  )

  finish_record-release :
      (barrier n k : ℕ) (table : BarrierTable Entry) (found : BarrierRecord Entry)
      → 1 ≤ n
      → (finish_record barrier table (counted n k found)).0
        ≡ (if suc k == n then some (release_of found) else none)
  unfolding counted
  finish_record-release barrier n k table (directory entry chunks parent) one = ground arith
  finish_record-release barrier n k table (batch roots parent) one = ground arith

  finish_record-other :
      (barrier other : ℕ) (table : BarrierTable Entry) (o : Option (BarrierRecord Entry))
      → other ≢ barrier
      → lookup barrier (finish_record other table o).1.records ≡ lookup barrier table.records
  finish_record-other barrier other table none differs = refl
  finish_record-other barrier other table (some found) differs = ground (
    arith,
    lookup-insert_other barrier other (decremented found) table.records differs,
    lookup-remove_other barrier other table.records differs,
  )

  -- The barrier was begun, and the table holds what it still waits for.
  abbrev Counts : ℕ → ℕ → ℕ → BarrierRecord Entry → BarrierTable Entry → Type 0
  Counts barrier n k found table =
      (lookup barrier table.records ≡ counted n k found) × (barrier < table.next_id)

  begin-Counts :
      (barrier n k : ℕ) (found new_record : BarrierRecord Entry) (table : BarrierTable Entry)
      → suc table.next_id < 2 ^ 64
      → Counts barrier n k found table
      → Counts barrier n k found (begin_record new_record table).1
  unfolding begin_record
  begin-Counts barrier n k found new_record table small c = (
    lookup-insert_other barrier table.next_id new_record table.records (omega (arith, c.1)) ∙ c.0,
    omega (arith, c.1, next_word_small table.next_id small),
  )

  finish_record-next_id :
      (other : ℕ) (table : BarrierTable Entry) (o : Option (BarrierRecord Entry))
      → (finish_record other table o).1.next_id ≡ table.next_id
  finish_record-next_id other table none = refl
  finish_record-next_id other table (some found) = ground arith

  -- One more, where the barrier is the one that was finished.
  finish-Counts :
      (barrier n k other : ℕ) (found : BarrierRecord Entry) (table : BarrierTable Entry)
      → Counts barrier n k found table
      → Counts barrier n
          (k + (if other == barrier then 1 else 0))
          found
          (finish_spilled_chunk other table).1
  unfolding finish_spilled_chunk
  finish-Counts barrier n k other found table c = (
    if_known
        (λ one.
          lookup barrier (finish_spilled_chunk other table).1.records ≡ counted n (k + one) found)
        (other == barrier) 1 0
        (λ same.
          let e : barrier ≡ other = ground arith in
          subst
            (λ b. lookup barrier (finish_spilled_chunk b table).1.records ≡ counted n (k + 1) found)
            e
            (rw c.0 (
              finish_record-same barrier n k table found c.0
              ∙ ap (λ m. counted n m found) (omega arith))))
        (λ differs.
          finish_record-other barrier other table (lookup other table.records) (ground arith)
          ∙ c.0
          ∙ ap (λ m. counted n m found) (omega arith)),
    omega (arith, c.1, finish_record-next_id other table (lookup other table.records)),
  )

  run_barriers-Counts :
      (barrier n k : ℕ) (found : BarrierRecord Entry) (steps : List (BarrierStep Entry))
      (table : BarrierTable Entry)
      → table.next_id + length steps < 2 ^ 64
      → Counts barrier n k found table
      → Counts barrier n (k + finishes barrier steps) found (run_barriers steps table)
  unfolding run_barriers step_barrier begin_record finish_spilled_chunk
  run_barriers-Counts barrier n k found [] table small c =
      subst (λ m. Counts barrier n m found table) (omega arith) c
  run_barriers-Counts barrier n k found (begin new_record ∷ steps) table small c =
      run_barriers-Counts barrier n k found steps (begin_record new_record table).1
        (omega (arith, next_word_small table.next_id (omega arith)))
        (begin-Counts barrier n k found new_record table (omega arith) c)
  run_barriers-Counts barrier n k found (finish other ∷ steps) table small c =
      subst
        (λ m. Counts barrier n m found (run_barriers steps (finish_spilled_chunk other table).1))
        (omega arith)
        (run_barriers-Counts barrier n (k + (if other == barrier then 1 else 0)) found steps
          (finish_spilled_chunk other table).1
          (omega (arith, finish_record-next_id other table (lookup other table.records)))
          (finish-Counts barrier n k other found table c))

  begun-Counts :
      (begun : BarrierRecord Entry) (table : BarrierTable Entry)
      → 1 ≤ remaining begun
      → suc table.next_id < 2 ^ 64
      → Counts table.next_id (remaining begun) 0 begun (begin_record begun table).1
  unfolding begin_record counted
  begun-Counts (directory entry chunks parent) table one small = (
    lookup-insert_same table.next_id (directory entry chunks parent) table.records ∙ ground arith,
    omega (arith, next_word_small table.next_id small),
  )
  begun-Counts (batch roots parent) table one small = (
    lookup-insert_same table.next_id (batch roots parent) table.records ∙ ground arith,
    omega (arith, next_word_small table.next_id small),
  )

-- A barrier waits for n chunks, n at least one. After it was begun and any steps of the workers were
-- run, k of which finish it, the next finish of the barrier releases what it was begun for exactly if
-- that is the n-th; else it releases nothing. The table hands out fewer than 2^64 numbers.
pub finish_spilled_chunk-release :
    {Entry : Type 0} (begun : BarrierRecord Entry) (table : BarrierTable Entry)
    (steps : List (BarrierStep Entry))
    → 1 ≤ remaining begun
    → table.next_id + suc (length steps) < 2 ^ 64
    → let (barrier, opened) = begin_record begun table in
      (finish_spilled_chunk barrier (run_barriers steps opened)).0
      ≡ (if suc (finishes barrier steps) == remaining begun then some (release_of begun) else none)
unfolding begin_record finish_spilled_chunk
finish_spilled_chunk-release begun table steps one small =
    let opened = (begin_record begun table).1 in
    let c =
      run_barriers-Counts table.next_id (remaining begun) 0 begun steps opened
        (omega (arith, next_word_small table.next_id (omega arith)))
        (begun-Counts begun table one (omega arith)) in
    let same : 0 + finishes table.next_id steps ≡ finishes table.next_id steps = omega arith in
    rw (c.0 ∙ ap (λ k. counted (remaining begun) k begun) same) (
      finish_record-release table.next_id (remaining begun) (finishes table.next_id steps)
        (run_barriers steps opened) begun one)
