-- ===== src/Parallel/BarrierTests.antt =====
-- Barriers at work (src/parallel/postorder.rs).
use rushfind.Prelude.{arith, ◌==◌, suc, ◌∷◌, if◌then◌else◌, [], ℕ, ◌≡◌, refl, some, none, List}
use rushfind.Parallel.Barriers.{
  finish, resume, batch, directory, run_barriers, begin, begin_record, BarrierStep,
  finish_spilled_chunk, BarrierTable,
}
use rushfind.Parallel.Releases.{finish_spilled_chunk-release, finishes}

abbrev first_table : BarrierTable ℕ
first_table = record { next_id = 5; records = [] }

-- A directory that waits for two chunks, and one of another that ends meanwhile.
abbrev meanwhile : List (BarrierStep ℕ)
meanwhile = begin (batch 1 5) ∷ finish 6 ∷ finish 5 ∷ []

releases_second :
    (finish_spilled_chunk 5
      (run_barriers meanwhile (begin_record (directory 77 2 none) first_table).1)).0
    ≡ some (resume 77 none)
unfolding finish_spilled_chunk run_barriers
releases_second = refl

finish_spilled_chunk-release_example :
    (finish_spilled_chunk 5
      (run_barriers meanwhile (begin_record (directory 77 2 none) first_table).1)).0
    ≡ (if suc (finishes 5 meanwhile) == 2 then some (resume 77 none) else none)
unfolding begin_record
finish_spilled_chunk-release_example =
    finish_spilled_chunk-release (directory 77 2 none) first_table meanwhile (omega arith)
      (omega arith)
