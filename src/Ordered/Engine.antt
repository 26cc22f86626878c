-- ===== src/Ordered/Engine.antt =====
-- The ordered pipeline (src/ordered/engine.rs): evaluators begin the evaluation of each entry, in any order,
-- and one loop commits the evaluations in the order of the walk. An error of an evaluation, of an action
-- or of its continuation ends the loop.
use rushfind.Prelude.{zero, suc, length, ℕ, Bool, none, some, List, [], ◌∷◌}
use rushfind.Diagnostics.{Result, ok, err, new, out_of_fuel}
use rushfind.Entry.Context.{EntryContext}
use rushfind.Eval.Machine.{
  EvalStep, complete, pending_action, begin_entry_eval, resume_entry_eval, weight,
}
use rushfind.Eval.Outcome.{RuntimeStatus, Outcome, merge}
use rushfind.Eval.Ran.{bind, Ran}
use rushfind.Ordered.ReadyQueue.{OrderedReadyQueue, insert_item, pop_next}
use rushfind.Plan.Expr.{RuntimeExpr}
use rushfind.Plan.Types.{RuntimeAction, RuntimePredicate}

-- What an evaluator sends. The source keeps the entry in the step's request; here it stands beside it.
abbrev pub Ready : Type 0
Ready = EntryContext × Result EvalStep

-- What an evaluator does with an entry.
unfoldable pub evaluate_entry :
    (EntryContext → RuntimePredicate → Result Bool) → RuntimeExpr → EntryContext → Ready
unfolding begin_entry_eval
evaluate_entry evaluate_predicate root e = (e, begin_entry_eval (evaluate_predicate e) root)

module _ {S : Type 0} (evaluate_predicate : EntryContext → RuntimePredicate → Result Bool)
    (dispatch : EntryContext → RuntimeAction → S → Ran S Outcome) (root : RuntimeExpr) where
  -- `let mut ready = ready?; loop { match ready { … } }`, on fuel: each round dispatches an action.
  unfoldable pub commit :
      ℕ → EntryContext → Result EvalStep → RuntimeStatus → S → Ran S RuntimeStatus
  unfolding resume_entry_eval merge
  commit fuel e (err d) status s = (err d, s)
  commit fuel e (ok (complete result)) status s = (ok (merge status result.status), s)
  commit zero e (ok (pending_action request continuation)) status s = (err (new out_of_fuel 1), s)
  commit (suc fuel) e (ok (pending_action request continuation)) status s =
      bind (dispatch e request s) λ result s'.
        commit fuel e (resume_entry_eval (evaluate_predicate e) continuation result) status s'

  abbrev pub commit_item : Ready → RuntimeStatus → S → Ran S RuntimeStatus
  commit_item (e, step) status s = commit (weight root) e step status s

  -- `while let Some(ready) = queue.pop_next()`, on fuel: each round takes an item out of the buffer.
  unfoldable pub commit_ready :
      ℕ
      → OrderedReadyQueue Ready
      → RuntimeStatus
      → S
      → Ran S (OrderedReadyQueue Ready × RuntimeStatus)
  unfolding pop_next commit weight
  commit_ready zero queue status s = (ok (queue, status), s)
  commit_ready (suc fuel) queue status s = elim (pop_next queue).0 [
    | none ↦ (ok (queue, status), s)
    | some item ↦
        bind (commit_item item status s)
          λ status' s'. commit_ready fuel (pop_next queue).1 status' s'
  ]

  unfoldable pub receive :
      ℕ
      → Ready
      → OrderedReadyQueue Ready
      → RuntimeStatus
      → S
      → Ran S (OrderedReadyQueue Ready × RuntimeStatus)
  unfolding insert_item commit_ready
  receive sequence item queue status s =
      let filled = insert_item sequence item queue in
      commit_ready (length filled.buffered) filled status s

  -- `for (sequence, step) in ready_rx`
  unfoldable pub receive_all :
      List (ℕ × Ready)
      → OrderedReadyQueue Ready
      → RuntimeStatus
      → S
      → Ran S (OrderedReadyQueue Ready × RuntimeStatus)
  unfolding receive
  receive_all [] queue status s = (ok (queue, status), s)
  receive_all ((sequence, item) ∷ arrivals) queue status s =
      bind (receive sequence item queue status s)
        λ (queue', status') s'. receive_all arrivals queue' status' s'
