-- ===== src/Parallel/Barriers.antt =====
-- The barriers of subtrees (src/parallel/postorder.rs): a directory is visited after the chunks of
-- children that were spilled. The lock is never poisoned, since no operation panics under it. `Entry`
-- stands for `EntryContext`.
use rushfind.Prelude.{
  ◌-◌, ℕ, Option, none, some, List, [], ◌∷◌, NumberMap, insert, lookup, remove, next_word, ltb,
  if◌then◌else◌,
}

pub data BarrierRecord (Entry : Type 0) : Type 0 where
  -- the entry, the remaining chunks, the parent to notify
  directory : Entry → ℕ → Option ℕ → BarrierRecord Entry
  -- the remaining roots, the parent to notify
  batch : ℕ → ℕ → BarrierRecord Entry

pub data BarrierRelease (Entry : Type 0) : Type 0 where
  resume : Entry → Option ℕ → BarrierRelease Entry
  notify_parent : ℕ → BarrierRelease Entry

pub record BarrierTable (Entry : Type 0) : Type 0 where
  pub next_id : ℕ
  pub records : NumberMap (BarrierRecord Entry)

module _ {Entry : Type 0} where
  -- `fetch_add` hands out the number that was there. In the source it comes before the lock of the insert;
  -- no other step knows the number in between, so both are one step here.
  unfoldable pub begin_record : BarrierRecord Entry → BarrierTable Entry → ℕ × BarrierTable Entry
  unfolding insert
  begin_record new_record table = (
    table.next_id,
    record {
      next_id = next_word table.next_id;
      records = insert table.next_id new_record table.records;
    },
  )

  unfoldable pub begin_directory :
      Entry → ℕ → Option ℕ → BarrierTable Entry → ℕ × BarrierTable Entry
  unfolding begin_record
  begin_directory entry spilled_children parent =
      begin_record (directory entry spilled_children parent)

  unfoldable pub begin_batch : ℕ → ℕ → BarrierTable Entry → ℕ × BarrierTable Entry
  unfolding begin_record
  begin_batch roots parent = begin_record (batch roots parent)

  abbrev pub remaining : BarrierRecord Entry → ℕ
  remaining (directory entry chunks parent) = chunks
  remaining (batch roots parent) = roots

  abbrev pub decremented : BarrierRecord Entry → BarrierRecord Entry
  decremented (directory entry chunks parent) = directory entry (chunks - 1) parent
  decremented (batch roots parent) = batch (roots - 1) parent

  abbrev pub release_of : BarrierRecord Entry → BarrierRelease Entry
  release_of (directory entry chunks parent) = resume entry parent
  release_of (batch roots parent) = notify_parent parent

  abbrev pub finish_record :
      ℕ
      → BarrierTable Entry
      → Option (BarrierRecord Entry)
      → Option (BarrierRelease Entry) × BarrierTable Entry
  finish_record barrier table none = (none, table)
  finish_record barrier table (some found) =
      if ltb 1 (remaining found)
      then (none, record table { records = insert barrier (decremented found) table.records })
      else (some (release_of found), record table { records = remove barrier table.records })

  unfoldable pub finish_spilled_chunk :
      ℕ → BarrierTable Entry → Option (BarrierRelease Entry) × BarrierTable Entry
  unfolding insert remove lookup
  finish_spilled_chunk barrier table = finish_record barrier table (lookup barrier table.records)

-- The operations that workers interleave.
pub data BarrierStep (Entry : Type 0) : Type 0 where
  begin : BarrierRecord Entry → BarrierStep Entry
  finish : ℕ → BarrierStep Entry

module _ {Entry : Type 0} where
  unfoldable pub step_barrier : BarrierStep Entry → BarrierTable Entry → BarrierTable Entry
  unfolding begin_record finish_spilled_chunk
  step_barrier (begin new_record) table = (begin_record new_record table).1
  step_barrier (finish barrier) table = (finish_spilled_chunk barrier table).1

  unfoldable pub run_barriers : List (BarrierStep Entry) → BarrierTable Entry → BarrierTable Entry
  unfolding step_barrier
  run_barriers [] table = table
  run_barriers (step ∷ steps) table = run_barriers steps (step_barrier step table)
