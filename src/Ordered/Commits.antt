-- ===== src/Ordered/Commits.antt =====
-- The ordered pipeline does what evaluating one entry after the other does (src/ordered/engine.rs).
use rushfind.Prelude.{
  ◌^◌, ◌<◌, inr, length, inl, Bool, ℕ, zero, suc, Option-cases, List, [], ◌∷◌, ◌++◌, ◌≡◌, refl, ◌∙◌,
  sym, ap,
}
use rushfind.Ordered.Engine.{
  Ready, evaluate_entry, commit, commit_item, commit_ready, receive, receive_all,
}
use rushfind.Ordered.Recorded.{
  Recording, record_ready, record_arrival, record_all, record_ready-done, record_ready-next,
}
use rushfind.Entry.Context.{EntryContext}
use rushfind.Plan.Types.{RuntimeAction, RuntimePredicate}
use rushfind.Diagnostics.{err, ok, Result}
use rushfind.Eval.Ran.{bind_pure, bind_assoc, bind-fun_ext, bind, Ran}
use rushfind.Eval.Outcome.{default_status, merge, RuntimeStatus, Outcome}
use rushfind.Plan.Expr.{RuntimeExpr}
use rushfind.Eval.Machine.{
  resume_entry_eval, pending_action, complete, begin_entry_eval, weight, EvalStep, drive,
  evaluate_outcome_with_context,
}
use rushfind.Ordered.ReadyQueue.{default_queue, insert_item, pop_next, OrderedReadyQueue}
use rushfind.Eval.Direct.{run}
use rushfind.Eval.Refinement.{evaluate_outcome_with_context-eq-run}
use rushfind.Ordered.InOrder.{record_all-items_below, Arrives, AreNumbered, items_below}

-- The entries below a number, evaluated one after the other: the statuses merge, and the first error
-- ends it.
module _ {S : Type 0} (evaluate_predicate : EntryContext → RuntimePredicate → Result Bool)
    (dispatch : EntryContext → RuntimeAction → S → Ran S Outcome) (root : RuntimeExpr) where
  abbrev pub evaluate_below : (ℕ → EntryContext) → ℕ → S → Ran S RuntimeStatus
  evaluate_below entries zero s = (ok default_status, s)
  evaluate_below entries (suc n) s = bind (evaluate_below entries n s) λ status s'.
      bind (run (evaluate_predicate (entries n)) (dispatch (entries n)) root s')
        λ result s''. (ok (merge status result.status), s'')

  -- The rounds of the loop are those of the evaluator's own.
  commit-drive :
      (fuel : ℕ) (e : EntryContext) (step : Result EvalStep) (status : RuntimeStatus) (s : S)
      → commit evaluate_predicate dispatch root fuel e step status s
        ≡ bind
            (drive (evaluate_predicate e) (dispatch e) fuel step s)
            λ result s'. (ok (merge status result.status), s')
  unfolding commit drive
  commit-drive fuel e (err d) status s = refl
  commit-drive fuel e (ok (complete result)) status s = refl
  commit-drive zero e (ok (pending_action request continuation)) status s = refl
  commit-drive (suc fuel) e (ok (pending_action request continuation)) status s =
      bind-fun_ext (dispatch e request s) _ _ (λ result s'.
        commit-drive fuel e (resume_entry_eval (evaluate_predicate e) continuation result) status
          s')
      ∙ sym (bind_assoc (dispatch e request s) _ _)

  commit_item-run :
      (e : EntryContext) (status : RuntimeStatus) (s : S)
      → commit_item evaluate_predicate dispatch root
          (evaluate_entry evaluate_predicate root e)
          status
          s
        ≡ bind
            (run (evaluate_predicate e) (dispatch e) root s)
            λ result s'. (ok (merge status result.status), s')
  unfolding evaluate_entry evaluate_outcome_with_context
  commit_item-run e status s =
      commit-drive (weight root) e (begin_entry_eval (evaluate_predicate e) root) status s
      ∙ ap (λ ran. bind ran (λ result s'. (ok (merge status result.status), s')))
          (evaluate_outcome_with_context-eq-run (evaluate_predicate e) (dispatch e) root s)

  abbrev commit_items : List Ready → RuntimeStatus → S → Ran S RuntimeStatus
  commit_items [] status s = (ok status, s)
  commit_items (item ∷ items) status s =
      bind (commit_item evaluate_predicate dispatch root item status s) (commit_items items)

  commit_items-append :
      (items : List Ready) (item : Ready) (status : RuntimeStatus) (s : S)
      → commit_items (items ++ (item ∷ [])) status s
        ≡ bind (commit_items items status s) (commit_item evaluate_predicate dispatch root item)
  commit_items-append [] item status s = bind_pure _
  commit_items-append (first ∷ items) item status s =
      bind-fun_ext (commit_item evaluate_predicate dispatch root first status s) _ _
        (commit_items-append items item)
      ∙ sym (bind_assoc (commit_item evaluate_predicate dispatch root first status s) _ _)

  -- The recorded items are committed, beside the queue that is left.
  abbrev Committed :
      Recording Ready → RuntimeStatus → S → Ran S (OrderedReadyQueue Ready × RuntimeStatus)
  Committed (queue, items) status s =
      bind (commit_items items status s) λ status' s'. (ok (queue, status'), s')

  module _ (status : RuntimeStatus) (s : S) where
    commit_ready-recorded :
        (fuel : ℕ) (queue : OrderedReadyQueue Ready) (items : List Ready)
        → bind
            (commit_items items status s)
            (commit_ready evaluate_predicate dispatch root fuel queue)
          ≡ Committed (record_ready fuel (queue, items)) status s
    unfolding commit_ready record_ready
    commit_ready-recorded zero queue items = refl
    commit_ready-recorded (suc fuel) queue items = elim (Option-cases (pop_next queue).0) [
      | inl e ↦
          bind-fun_ext (commit_items items status s) _ _ (λ status' s'. rw (e, commit_ready) refl)
          ∙ ap (λ after. Committed after status s) (sym (record_ready-done fuel queue items e))
      | inr (item, e) ↦
          bind-fun_ext (commit_items items status s)
            (commit_ready evaluate_predicate dispatch root (suc fuel) queue)
            (λ status' s'.
              bind (commit_item evaluate_predicate dispatch root item status' s')
                (commit_ready evaluate_predicate dispatch root fuel (pop_next queue).1))
            (λ status' s'. rw (e, commit_ready) refl)
          ∙ sym (bind_assoc (commit_items items status s) _ _)
          ∙ ap
              (λ ran.
                bind ran (commit_ready evaluate_predicate dispatch root fuel (pop_next queue).1))
              (sym (commit_items-append items item status s))
          ∙ commit_ready-recorded fuel (pop_next queue).1 (items ++ (item ∷ []))
          ∙ ap (λ after. Committed after status s) (sym (record_ready-next fuel queue items item e))
    ]

    receive_all-recorded :
        (arrivals : List (ℕ × Ready)) (queue : OrderedReadyQueue Ready) (items : List Ready)
        → bind
            (commit_items items status s)
            (receive_all evaluate_predicate dispatch root arrivals queue)
          ≡ Committed (record_all arrivals (queue, items)) status s
    unfolding receive_all receive record_all record_arrival
    receive_all-recorded [] queue items = refl
    receive_all-recorded ((sequence, item) ∷ arrivals) queue items =
        let filled = insert_item sequence item queue in
        let after = record_ready (length filled.buffered) (filled, items) in
        sym (bind_assoc (commit_items items status s) _ _)
        ∙ ap
            (λ ran. bind ran λ (queue', status') s'.
              receive_all evaluate_predicate dispatch root arrivals queue' status' s')
            (commit_ready-recorded (length filled.buffered) filled items)
        ∙ bind_assoc (commit_items after.1 status s) _ _
        ∙ receive_all-recorded arrivals after.0 after.1

  commit_items-items_below :
      (entries : ℕ → EntryContext) (n : ℕ) (s : S)
      → commit_items
          (items_below (λ k. evaluate_entry evaluate_predicate root (entries k)) n)
          default_status
          s
        ≡ evaluate_below entries n s
  commit_items-items_below entries zero s = refl
  commit_items-items_below entries (suc n) s =
      let item : ℕ → Ready = λ k. evaluate_entry evaluate_predicate root (entries k) in
      commit_items-append (items_below item n) (item n) default_status s
      ∙ ap (λ ran. bind ran (commit_item evaluate_predicate dispatch root (item n)))
          (commit_items-items_below entries n s)
      ∙ bind-fun_ext (evaluate_below entries n s) _ _ (commit_item-run (entries n))

-- The evaluations of the entries below n arrive in any order, each under the number of its entry: if all
-- of them arrive and no other, the pipeline leaves the status and the sink that evaluating the entries
-- one after the other leaves, with the same error where one of them fails, at which both end. The fuel
-- of its loops is enough.
pub receive_all-evaluate_below :
    {S : Type 0} (evaluate_predicate : EntryContext → RuntimePredicate → Result Bool)
    (dispatch : EntryContext → RuntimeAction → S → Ran S Outcome) (root : RuntimeExpr)
    (entries : ℕ → EntryContext) (n : ℕ) (arrivals : List (ℕ × Ready)) (s : S)
    → n < 2 ^ 64
    → AreNumbered (λ k. evaluate_entry evaluate_predicate root (entries k)) n arrivals
    → ((k : ℕ) → k < n → Arrives k arrivals)
    → bind
        (receive_all evaluate_predicate dispatch root arrivals
          (default_queue Ready)
          default_status
          s)
        (λ (queue, status) s'. (ok status, s'))
      ≡ evaluate_below evaluate_predicate dispatch root entries n s
receive_all-evaluate_below evaluate_predicate dispatch root entries n arrivals s small numbered
      all =
    let item : ℕ → Ready = λ k. evaluate_entry evaluate_predicate root (entries k) in
    let recorded = record_all arrivals (default_queue Ready, []) in
    ap (λ ran. bind ran (λ (queue, status) s'. (ok status, s')))
      (receive_all-recorded evaluate_predicate dispatch root default_status s arrivals
        (default_queue Ready) [])
    ∙ bind_assoc (commit_items evaluate_predicate dispatch root recorded.1 default_status s) _ _
    ∙ bind_pure (commit_items evaluate_predicate dispatch root recorded.1 default_status s)
    ∙ ap (λ items. commit_items evaluate_predicate dispatch root items default_status s)
        (record_all-items_below item n arrivals small numbered all)
    ∙ commit_items-items_below evaluate_predicate dispatch root entries n s
