-- ===== src/Eval/Tests.antt =====
-- An evaluation with a sink that keeps a list of the actions (src/eval.rs, src/runtime_pipeline.rs), the
-- same for its optimized form (src/optimizer.rs), and a directory for the traversal's tests.
use rushfind.Prelude.{◌∷◌, ◌++◌, [], List, Bool, true, false, ◌≡◌, refl}
use rushfind.Eval.Machine.{step_expr, evaluate_outcome_with_context}
use rushfind.Plan.Types.{
  print0, quit, print, FileTypeFilter, output, RuntimeAction, RuntimePredicate,
}
use rushfind.Plan.Expr.{nil, or, action, negate, predicate, cons, and, RuntimeExpr}
use rushfind.Plan.Optimizer.Pass.{optimize_loop, optimize_read_only_and_chains}
use rushfind.Plan.Optimizer.Preserves.{optimize_read_only_and_chains-run, Evaluates}
use rushfind.Eval.Direct.{run}
use rushfind.Diagnostics.{ok, Result}
use rushfind.Eval.Ran.{Ran}
use rushfind.Eval.Outcome.{outcome, quit_outcome, Outcome, is_stop_requested, merge}
use rushfind.Eval.Refinement.{evaluate_outcome_with_context-eq-run}
use rushfind.Plan.Optimizer.Profile.{predicate_profile}
use rushfind.Plan.Optimizer.Sorted.{optimize_read_only_and_chains-ChainsByCost, ChainsByCost}
use rushfind.Plan.Actions.{compute_action_profile}
use rushfind.Plan.Optimizer.KeepsActions.{actions_of, optimize_read_only_and_chains-actions_of}

-- Files that are readable, and not writable; no other predicate fails.
abbrev evaluate : RuntimePredicate → Result Bool
evaluate RuntimePredicate.writable = ok false
evaluate _ = ok true

abbrev record_action : RuntimeAction → List RuntimeAction → Ran (List RuntimeAction) Outcome
record_action quit log = (ok quit_outcome, log ++ (quit ∷ []))
record_action a log = (ok (outcome true), log ++ (a ∷ []))

-- -readable -print , ! -writable -quit -print0
abbrev chain : RuntimeExpr
chain = and (
    cons (negate (predicate RuntimePredicate.writable)) (
      cons (action (output print)) (
        cons (or (predicate RuntimePredicate.writable) (action quit))
          (cons (action (output print0)) nil))))

stops_at_quit :
    (evaluate_outcome_with_context evaluate record_action chain []).1 ≡ output print ∷ quit ∷ []
unfolding evaluate_outcome_with_context step_expr merge is_stop_requested
stops_at_quit = refl

evaluate_outcome_with_context-eq-run_example :
    evaluate_outcome_with_context evaluate record_action chain []
    ≡ run evaluate record_action chain []
evaluate_outcome_with_context-eq-run_example =
    evaluate_outcome_with_context-eq-run evaluate record_action chain []

-- -empty -readable -prune -type f -print
abbrev unsorted : RuntimeExpr
unsorted = and (
    cons (predicate RuntimePredicate.is_empty) (
      cons (predicate RuntimePredicate.readable) (
        cons (predicate RuntimePredicate.prune) (
          cons (predicate (RuntimePredicate.type_is FileTypeFilter.file))
            (cons (action (output print)) nil)))))

sorts_around_prune :
    optimize_read_only_and_chains unsorted
    ≡ and (
        cons (predicate RuntimePredicate.readable) (
          cons (predicate RuntimePredicate.is_empty) (
            cons (predicate RuntimePredicate.prune) (
              cons
                (predicate (RuntimePredicate.type_is FileTypeFilter.file))
                (cons (action (output print)) nil)))))
unfolding optimize_read_only_and_chains optimize_loop predicate_profile
sorts_around_prune = refl

optimize_read_only_and_chains-run_example :
    run evaluate record_action (optimize_read_only_and_chains unsorted) []
    ≡ run evaluate record_action unsorted []
unfolding Evaluates
optimize_read_only_and_chains-run_example =
    optimize_read_only_and_chains-run evaluate record_action unsorted [] (
      (λ _. (true, refl)),
      ((λ _. (true, refl)), ((λ _. (true, refl)), ((λ _. (true, refl)), (tt, tt)))),
    )

optimize_read_only_and_chains-ChainsByCost_example :
    ChainsByCost (optimize_read_only_and_chains (or unsorted chain))
optimize_read_only_and_chains-ChainsByCost_example =
    optimize_read_only_and_chains-ChainsByCost (or unsorted chain)

optimize_read_only_and_chains-actions_of_example :
    (actions_of (optimize_read_only_and_chains chain) ≡ actions_of chain)
    × (compute_action_profile (optimize_read_only_and_chains chain) ≡ compute_action_profile chain)
optimize_read_only_and_chains-actions_of_example = optimize_read_only_and_chains-actions_of chain
