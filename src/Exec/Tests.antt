-- ===== src/Exec/Tests.antt =====
-- Batches of a command with a small limit (src/exec/batch.rs, src/exec/ordered.rs).
use rushfind.Exec.Substitution.{render_segments-compile_immediate_exec}
use rushfind.Exec.Template.{render_segments, compile_immediate_exec}
use rushfind.Prelude.{◌≤◌, ◌+◌, [], ◌++◌, ◌∷◌, codes, Bytes, false, ◌≡◌, refl, List}
use rushfind.Exec.Batch.{fixed_batch_cost, enqueue_all, new_batch}
use rushfind.Plan.Types.{ExecSemantics, BatchedExecAction}
use rushfind.Exec.Enqueue.{total_cost, AreWithin, only_fitting, paths_of}
use rushfind.Exec.Batches.{enqueue_all-batches}
use rushfind.Prelude.{is_empty}

abbrev echo : BatchedExecAction
echo = record { id = 0; semantics = ExecSemantics.normal; argv_prefix = codes "echo" ∷ [] }

abbrev same_text : Bytes → Bytes
same_text path = path

abbrev found : List Bytes
found = codes "a" ∷ codes "bb" ∷ codes "much-too-long" ∷ codes "c" ∷ codes "d" ∷ []

leaves_last_two :
    (enqueue_all same_text found (new_batch echo 10 (fixed_batch_cost echo.argv_prefix))).1.paths
    ≡ codes "c" ∷ codes "d" ∷ []
unfolding enqueue_all fixed_batch_cost
leaves_last_two = refl

enqueue_all-batches_example :
    let start = new_batch echo 10 5 in
    let (batches, pending) = enqueue_all same_text found start in
    (paths_of batches ++ pending.paths ≡ only_fitting same_text start found)
    × AreWithin same_text start batches
    × (is_empty pending.paths ≡ false → 5 + total_cost same_text echo pending.paths ≤ 10)
enqueue_all-batches_example = enqueue_all-batches same_text echo 10 5 found

render_segments-compile_immediate_exec_example :
    render_segments
      (compile_immediate_exec ExecSemantics.normal
        (codes "mv" ∷ codes "{}" ∷ codes "{}.old" ∷ [])).argv
      (codes "a")
    ≡ codes "mv" ∷ codes "a" ∷ codes "a.old" ∷ []
render_segments-compile_immediate_exec_example =
    render_segments-compile_immediate_exec ExecSemantics.normal
      (codes "mv" ∷ codes "{}" ∷ codes "{}.old" ∷ []) (codes "a")
