-- ===== src/Eval/Machine.antt =====
-- The resumable evaluator (src/runtime_pipeline.rs) and the loop that drives it (src/eval.rs).
-- The entry and the follow mode go through the source's calls unchanged, so they are parameters here.
-- `step_expr` and `finish_with_outcome` call one another on fuel; the weight of an expression and of a
-- continuation bounds the calls they make.
use rushfind.Prelude.{ℕ, zero, suc, ◌+◌, Bool, true, false, not, ◌||◌, none, some}
use rushfind.Diagnostics.{Result, ok, err, ◌>>=◌, new, out_of_fuel}
use rushfind.Plan.Types.{RuntimePredicate, RuntimeAction}
use rushfind.Plan.Expr.{
  RuntimeExpr, RuntimeExprs, and, or, negate, predicate, action, barrier, nil, cons, get_expr?,
}
use rushfind.Eval.Outcome.{
  RuntimeStatus, Outcome, outcome, default_status, merge, is_stop_requested,
}
use rushfind.Eval.Ran.{bind, Ran}

pub data EvalContinuation : Type 0 where
  done : EvalContinuation
  -- the items, the next index, the accumulated status
  after_and : RuntimeExprs → ℕ → RuntimeStatus → EvalContinuation → EvalContinuation
  after_or_left : RuntimeExpr → EvalContinuation → EvalContinuation
  after_or_right : RuntimeStatus → EvalContinuation → EvalContinuation
  after_not : EvalContinuation → EvalContinuation

pub data EvalStep : Type 0 where
  complete : Outcome → EvalStep
  pending_action : RuntimeAction → EvalContinuation → EvalStep

unfoldable mutual
  pub weight : RuntimeExpr → ℕ
  weight (and items) = suc (weight_items items)
  weight (or left right) = weight left + weight right + 3
  weight (negate inner) = weight inner + 2
  weight (predicate p) = 1
  weight (action a) = 1
  weight barrier = 1

  pub weight_items : RuntimeExprs → ℕ
  weight_items nil = 0
  weight_items (cons item items) = suc (weight item + weight_items items)

-- The items from an index on.
unfoldable pub items_from : RuntimeExprs → ℕ → RuntimeExprs
items_from items zero = items
items_from nil (suc index) = nil
items_from (cons item items) (suc index) = items_from items index

unfoldable pub weight_continuation : EvalContinuation → ℕ
unfolding weight items_from
weight_continuation done = 0
weight_continuation (after_and items next_index accumulated parent) =
    suc (weight_items (items_from items next_index) + weight_continuation parent)
weight_continuation (after_or_left right parent) = weight right + 2 + weight_continuation parent
weight_continuation (after_or_right left_status parent) = suc (weight_continuation parent)
weight_continuation (after_not parent) = suc (weight_continuation parent)

module _ (evaluate_predicate : RuntimePredicate → Result Bool) where
  unfoldable mutual
    pub step_expr : ℕ → RuntimeExpr → EvalContinuation → Result EvalStep
    step_expr zero expr continuation = err (new out_of_fuel 1)
    step_expr (suc fuel) (predicate p) continuation =
        evaluate_predicate p >>= λ matched. finish_with_outcome fuel continuation (outcome matched)
    step_expr (suc fuel) (action a) continuation = ok (pending_action a continuation)
    step_expr (suc fuel) (and items) continuation = elim (get_expr? items 0) [
      | some first ↦ step_expr fuel first (after_and items 1 default_status continuation)
      | none ↦ finish_with_outcome fuel continuation (outcome true)
    ]
    step_expr (suc fuel) (or left right) continuation =
        step_expr fuel left (after_or_left right continuation)
    step_expr (suc fuel) (negate inner) continuation = step_expr fuel inner (after_not continuation)
    step_expr (suc fuel) barrier continuation = finish_with_outcome fuel continuation (outcome true)

    pub finish_with_outcome : ℕ → EvalContinuation → Outcome → Result EvalStep
    finish_with_outcome zero continuation result = err (new out_of_fuel 1)
    finish_with_outcome (suc fuel) done result = ok (complete result)
    finish_with_outcome (suc fuel) (after_and items next_index accumulated parent) result =
        elim (not result.matched || is_stop_requested (merge accumulated result.status)) [
          | true ↦
              finish_with_outcome fuel parent
                (record { matched = result.matched; status = merge accumulated result.status })
          | false ↦ elim (get_expr? items next_index) [
            | none ↦
                finish_with_outcome fuel parent
                  (record { matched = true; status = merge accumulated result.status })
            | some item ↦
                step_expr fuel item
                  (after_and items (suc next_index) (merge accumulated result.status) parent)
          ]
        ]
    finish_with_outcome (suc fuel) (after_or_left right parent) result =
        elim (result.matched || is_stop_requested result.status) [
          | true ↦ finish_with_outcome fuel parent result
          | false ↦ step_expr fuel right (after_or_right result.status parent)
        ]
    finish_with_outcome (suc fuel) (after_or_right left_status parent) result =
        finish_with_outcome fuel parent
          (record { matched = result.matched; status = merge left_status result.status })
    finish_with_outcome (suc fuel) (after_not parent) result =
        finish_with_outcome fuel parent
          (record { matched = not result.matched; status = result.status })

  unfoldable pub begin_entry_eval : RuntimeExpr → Result EvalStep
  unfolding step_expr weight
  begin_entry_eval expr = step_expr (suc (weight expr)) expr done

  unfoldable pub resume_entry_eval : EvalContinuation → Outcome → Result EvalStep
  unfolding step_expr weight_continuation
  resume_entry_eval continuation result =
      finish_with_outcome (suc (weight_continuation continuation)) continuation result

module _ {S : Type 0} (evaluate_predicate : RuntimePredicate → Result Bool)
    (dispatch : RuntimeAction → S → Ran S Outcome) where
  -- The loop of `evaluate_outcome_with_context`.
  unfoldable pub drive : ℕ → Result EvalStep → S → Ran S Outcome
  drive fuel (err d) s = (err d, s)
  drive fuel (ok (complete result)) s = (ok result, s)
  drive zero (ok (pending_action request continuation)) s = (err (new out_of_fuel 1), s)
  drive (suc fuel) (ok (pending_action request continuation)) s =
      bind (dispatch request s)
        λ result s'. drive fuel (resume_entry_eval evaluate_predicate continuation result) s'

  unfoldable pub evaluate_outcome_with_context : RuntimeExpr → S → Ran S Outcome
  unfolding drive begin_entry_eval resume_entry_eval
  evaluate_outcome_with_context expr s =
      drive (weight expr) (begin_entry_eval evaluate_predicate expr) s
