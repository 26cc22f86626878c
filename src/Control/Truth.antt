-- ===== src/Control/Truth.antt =====
-- The traversal takes every action for a success, and else agrees with the evaluation
-- (src/traversal_control.rs, src/eval.rs).
use rushfind.Prelude.{if_known, ◌∙◌, Bool, true, false, not, ◌||◌, ◌≡◌, refl}
use rushfind.Diagnostics.{OnOk-self, OnOk-tt, OnOk-map, OnOk-eq, >>=-OnOk, OnOk, Result, ok, ◌>>=◌}
use rushfind.Plan.Types.{TraversalOrder, RuntimePredicate, RuntimeAction}
use rushfind.Plan.Expr.{
  RuntimeExpr, RuntimeExprs, and, or, negate, predicate, action, barrier, nil, cons,
}
use rushfind.Eval.Predicate.{evaluate_predicate, EvalContext, Services}
use rushfind.Entry.Context.{EntryContext}
use rushfind.Entry.Types.{FollowMode}
use rushfind.Eval.Ran.{Ran}
use rushfind.Eval.Outcome.{merge, default_status, is_stop_requested, outcome, Outcome}
use rushfind.Eval.Direct.{run_items, run}
use rushfind.Control.Verdict.{
  prunes, verdict_of_items, allow, TraversalControl, evaluate_for_traversal_with_context,
  predicate_verdict,
}
use rushfind.Control.Policy.{is_prune}
use rushfind.Eval.Machine.{evaluate_outcome_with_context}
use rushfind.Eval.Refinement.{evaluate_outcome_with_context-eq-run}

module _ {S : Type 0} (services : Services) (context : EvalContext) (entry : EntryContext)
    (mode : FollowMode) (order : TraversalOrder)
    (dispatch : RuntimeAction → S → Ran S Outcome) where
  -- The expression runs to the truth of the verdict, and leaves the sink alone.
  abbrev HasTruth : RuntimeExpr → TraversalControl → Type 0
  HasTruth expr verdict =
      (s : S)
      → run (evaluate_predicate services context entry mode) dispatch expr s
        ≡ (ok (outcome verdict.matched), s)

  abbrev ItemsHaveTruth : RuntimeExprs → TraversalControl → Type 0
  ItemsHaveTruth items verdict =
      (s : S)
      → run_items (evaluate_predicate services context entry mode) dispatch default_status items s
        ≡ (ok (outcome verdict.matched), s)

  or-HasTruth :
      (left right : RuntimeExpr) (first : TraversalControl) (matched : Bool)
      (rest : Result TraversalControl)
      → first.matched ≡ matched
      → HasTruth left first
      → OnOk (HasTruth right) rest
      → OnOk (HasTruth (or left right)) (elim matched [
        | true ↦ ok first
        | false ↦ rest >>= λ second.
            ok (record { matched = second.matched; prune = first.prune || second.prune })
      ])
  unfolding run is_stop_requested merge
  or-HasTruth left right first true rest e kept tails = λ s. rw (kept s, e) refl
  or-HasTruth left right first false rest e kept tails =
      >>=-OnOk _ _ rest _ tails λ second kept' s. rw (kept s, e, kept' s) refl

  cons-HasTruth :
      (item : RuntimeExpr) (items : RuntimeExprs) (matched prune before : Bool)
      (rest : Result TraversalControl)
      → HasTruth item (record { matched = matched; prune = prune })
      → OnOk (ItemsHaveTruth items) rest
      → OnOk (ItemsHaveTruth (cons item items)) (elim (not matched) [
        | true ↦ ok (record { matched = false; prune = before || prune })
        | false ↦ rest
      ])
  unfolding run is_stop_requested merge
  cons-HasTruth item items true prune before rest kept tails =
      OnOk-map _ _ rest (λ verdict tail s. rw (kept s) (tail s)) tails
  cons-HasTruth item items false prune before rest kept tails = λ s. rw (kept s) refl

  prune_matches :
      (p : RuntimePredicate)
      → is_prune p ≡ true
      → evaluate_predicate services context entry mode p ≡ ok true
  unfolding is_prune evaluate_predicate
  prune_matches RuntimePredicate.prune e = refl
  prune_matches _ e = cc

  predicate-HasTruth :
      (p : RuntimePredicate)
      → OnOk (HasTruth (predicate p)) (predicate_verdict services context entry mode order p)
  unfolding predicate_verdict run is_prune
  predicate-HasTruth p =
      if_known (OnOk (HasTruth (predicate p))) (is_prune p) _ _
        (λ prune.
          >>=-OnOk (λ _. Unit) _ (prunes services context entry mode order) _ (OnOk-tt _)
            λ prune' _ s. rw (prune_matches p prune) refl)
        (λ _.
          >>=-OnOk _ _ (evaluate_predicate services context entry mode p) _ (OnOk-self _)
            λ matched e s. rw e refl)

  mutual
    unfolding evaluate_for_traversal_with_context run

    truth :
        ((a : RuntimeAction) (s : S) → dispatch a s ≡ (ok (outcome true), s))
        → (expr : RuntimeExpr)
        → OnOk
            (HasTruth expr)
            (evaluate_for_traversal_with_context services context entry mode order expr)
    truth succeeds (and items) = truth_of_items succeeds items allow refl
    truth succeeds (or left right) =
        >>=-OnOk _ _ (evaluate_for_traversal_with_context services context entry mode order left) _
          (truth succeeds left)
          λ first kept.
            or-HasTruth left right first first.matched _ refl kept (truth succeeds right)
    truth succeeds (negate inner) =
        >>=-OnOk _ _ (evaluate_for_traversal_with_context services context entry mode order inner) _
          (truth succeeds inner) λ verdict kept s. rw (kept s) refl
    truth succeeds (predicate p) = predicate-HasTruth p
    truth succeeds (action a) = λ s. succeeds a s
    truth succeeds barrier = λ s. refl

    truth_of_items :
        ((a : RuntimeAction) (s : S) → dispatch a s ≡ (ok (outcome true), s))
        → (items : RuntimeExprs) (verdict : TraversalControl) → verdict.matched ≡ true
        → OnOk
            (ItemsHaveTruth items)
            (verdict_of_items services context entry mode order verdict items)
    truth_of_items succeeds nil verdict v = λ s. rw v refl
    truth_of_items succeeds (cons item items) verdict v =
        >>=-OnOk _ _ (evaluate_for_traversal_with_context services context entry mode order item) _
          (truth succeeds item)
          λ next kept. cons-HasTruth item items next.matched next.prune verdict.prune _ kept (
            truth_of_items succeeds items
              (record { matched = verdict.matched; prune = verdict.prune || next.prune }) v)

-- With a sink whose every action succeeds without a change, the evaluation of an entry yields the truth
-- of the verdict that the traversal has on it, where it has one, and leaves the sink alone.
pub evaluate_for_traversal-truth :
    {S : Type 0} (services : Services) (context : EvalContext) (entry : EntryContext)
    (mode : FollowMode) (order : TraversalOrder) (dispatch : RuntimeAction → S → Ran S Outcome)
    (expr : RuntimeExpr) (verdict : TraversalControl) (s : S)
    → ((a : RuntimeAction) (s' : S) → dispatch a s' ≡ (ok (outcome true), s'))
    → evaluate_for_traversal_with_context services context entry mode order expr ≡ ok verdict
    → evaluate_outcome_with_context (evaluate_predicate services context entry mode) dispatch expr s
      ≡ (ok (outcome verdict.matched), s)
evaluate_for_traversal-truth services context entry mode order dispatch expr verdict s succeeds h =
    evaluate_outcome_with_context-eq-run (evaluate_predicate services context entry mode) dispatch
      expr s
    ∙ OnOk-eq (HasTruth services context entry mode order dispatch expr) _ verdict
        (truth services context entry mode order dispatch succeeds expr) h s
