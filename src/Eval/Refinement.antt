-- ===== src/Eval/Refinement.antt =====
-- The resumable evaluator computes the meaning of the expression, and its fuel is enough.
use rushfind.Prelude.{
  elim-false_ext, ℕ, zero, suc, ◌+◌, ◌≤◌, ◌<◌, Bool, true, false, not, Option, none, some, ◌≡◌,
  refl, sym, ◌∙◌, arith,
}
use rushfind.Diagnostics.{Result, ok, err, ◌>>=◌}
use rushfind.Plan.Types.{RuntimePredicate, RuntimeAction}
use rushfind.Plan.Expr.{
  RuntimeExpr, RuntimeExprs, and, or, negate, predicate, action, barrier, nil, cons, get_expr?,
}
use rushfind.Eval.Outcome.{RuntimeStatus, Outcome, outcome, default_status, merge}
use rushfind.Eval.Machine.{
  EvalContinuation, EvalStep, done, after_and, after_or_left, after_or_right, after_not, weight,
  weight_items, items_from, weight_continuation, step_expr, finish_with_outcome, begin_entry_eval,
  resume_entry_eval, drive, evaluate_outcome_with_context,
}
use rushfind.Eval.Direct.{ends_and, ends_or, run, run_items}
use rushfind.Eval.Ran.{bind_assoc, bind-elim, bind-fun_ext, bind, Ran}

-- A call of the evaluator.
data Task : Type 0 where
  step : RuntimeExpr → EvalContinuation → Task
  finish : EvalContinuation → Outcome → Task

abbrev weight_task : Task → ℕ
weight_task (step expr continuation) = weight expr + weight_continuation continuation
weight_task (finish continuation result) = weight_continuation continuation

-- The items from an index on, by the item at the index.
items_at : RuntimeExprs → ℕ → Option RuntimeExpr → RuntimeExprs
items_at items index none = nil
items_at items index (some item) = cons item (items_from items (suc index))

items_at-cons :
    (item : RuntimeExpr) (items : RuntimeExprs) (index : ℕ) (o : Option RuntimeExpr)
    → items_at items index o ≡ items_at (cons item items) (suc index) o
unfolding items_at items_from
items_at-cons item items index none = refl
items_at-cons item items index (some next) = refl

items_from-get_expr? :
    (items : RuntimeExprs) (index : ℕ)
    → items_from items index ≡ items_at items index (get_expr? items index)
unfolding items_from items_at
items_from-get_expr? nil zero = refl
items_from-get_expr? nil (suc index) = refl
items_from-get_expr? (cons item nil) zero = refl
items_from-get_expr? (cons item (cons next items)) zero = refl
items_from-get_expr? (cons item items) (suc index) =
    items_from-get_expr? items index ∙ items_at-cons item items index (get_expr? items index)

weight_items_from :
    (items : RuntimeExprs) (index : ℕ) (item : RuntimeExpr)
    → get_expr? items index ≡ some item
    → weight_items (items_from items index)
      ≡ suc (weight item + weight_items (items_from items (suc index)))
unfolding weight items_at
weight_items_from items index item e = rw (items_from-get_expr? items index, e) refl

module _ {S : Type 0} (evaluate_predicate : RuntimePredicate → Result Bool)
    (dispatch : RuntimeAction → S → Ran S Outcome) where
  abbrev run_task : ℕ → Task → Result EvalStep
  run_task fuel (step expr continuation) = step_expr evaluate_predicate fuel expr continuation
  run_task fuel (finish continuation result) =
      finish_with_outcome evaluate_predicate fuel continuation result

  -- What is still to be done with an outcome.
  apply : EvalContinuation → Outcome → S → Ran S Outcome
  apply done result s = (ok result, s)
  apply (after_and items next_index accumulated parent) result s =
      elim (ends_and result (merge accumulated result.status)) [
        | true ↦
            apply parent
              (record { matched = result.matched; status = merge accumulated result.status }) s
        | false ↦
            bind
              (run_items evaluate_predicate dispatch (merge accumulated result.status)
                (items_from items next_index) s)
              (apply parent)
      ]
  apply (after_or_left right parent) result s = elim (ends_or result) [
    | true ↦ apply parent result s
    | false ↦ bind (run evaluate_predicate dispatch right s) λ second s'.
        apply parent
          (record { matched = second.matched; status = merge result.status second.status }) s'
  ]
  apply (after_or_right left_status parent) result s =
      apply parent (record { matched = result.matched; status = merge left_status result.status }) s
  apply (after_not parent) result s =
      apply parent (record { matched = not result.matched; status = result.status }) s

  meaning : Task → S → Ran S Outcome
  meaning (step expr continuation) s =
      bind (run evaluate_predicate dispatch expr s) (apply continuation)
  meaning (finish continuation result) s = apply continuation result s

  join-and :
      (items : RuntimeExprs) (next_index : ℕ) (accumulated : RuntimeStatus) (k : EvalContinuation)
      (m : Ran S Outcome)
      → bind m (apply (after_and items next_index accumulated k))
        ≡ bind
            (bind m λ result s'. elim (ends_and result (merge accumulated result.status)) [
              | true ↦ (
                ok (record { matched = result.matched; status = merge accumulated result.status }),
                s',
              )
              | false ↦
                  run_items evaluate_predicate dispatch
                    (merge accumulated result.status)
                    (items_from items next_index)
                    s'
            ])
            (apply k)
  unfolding apply
  join-and items next_index accumulated k (err d, s) = refl
  join-and items next_index accumulated k (ok result, s) =
      sym (bind-elim (ends_and result (merge accumulated result.status)) _ _ (apply k))

  join-or :
      (right : RuntimeExpr) (k : EvalContinuation) (m : Ran S Outcome)
      → bind m (apply (after_or_left right k))
        ≡ bind
            (bind m λ result s'. elim (ends_or result) [
              | true ↦ (ok result, s')
              | false ↦ bind (run evaluate_predicate dispatch right s') λ second s''. (
                ok (record {
                  matched = second.matched;
                  status = merge result.status second.status;
                }),
                s'',
              )
            ])
            (apply k)
  unfolding apply
  join-or right k (err d, s) = refl
  join-or right k (ok result, s) =
      elim-false_ext (ends_or result) _ _ _
        (λ _. sym (bind_assoc (run evaluate_predicate dispatch right s) _ _))
      ∙ sym (bind-elim (ends_or result) _ _ (apply k))

  drive-elim :
      (b : Bool) (rounds : ℕ) (x y : Result EvalStep) (s : S) (u v : Ran S Outcome)
      → drive evaluate_predicate dispatch rounds x s ≡ u
      → drive evaluate_predicate dispatch rounds y s ≡ v
      → drive evaluate_predicate dispatch rounds (elim b [ true ↦ x | false ↦ y ]) s
        ≡ elim b [ true ↦ u | false ↦ v ]
  drive-elim true rounds x y s u v p q = p
  drive-elim false rounds x y s u v p q = q

  drive-next :
      (items : RuntimeExprs) (next_index fuel rounds : ℕ) (status : RuntimeStatus)
      (parent : EvalContinuation) (s : S) (o : Option RuntimeExpr)
      → items_from items next_index ≡ items_at items next_index o
      → drive evaluate_predicate dispatch rounds
          (run_task fuel (finish parent (record { matched = true; status = status })))
          s
        ≡ apply parent (record { matched = true; status = status }) s
      → ((item : RuntimeExpr)
          → o ≡ some item
          → drive evaluate_predicate dispatch rounds
              (run_task fuel (step item (after_and items (suc next_index) status parent)))
              s
            ≡ meaning (step item (after_and items (suc next_index) status parent)) s)
      → drive evaluate_predicate dispatch rounds
          (elim o [
            | none ↦
                finish_with_outcome evaluate_predicate fuel parent
                  (record { matched = true; status = status })
            | some item ↦
                step_expr evaluate_predicate fuel item
                  (after_and items (suc next_index) status parent)
          ])
          s
        ≡ bind
            (run_items evaluate_predicate dispatch status (items_from items next_index) s)
            (apply parent)
  unfolding run items_at meaning
  drive-next items next_index fuel rounds status parent s none e at_end at_item = rw e at_end
  drive-next items next_index fuel rounds status parent s (some item) e at_end at_item = rw e (
      at_item item refl
      ∙ join-and items (suc next_index) status parent (run evaluate_predicate dispatch item s))

  drive_task :
      (rounds fuel : ℕ) (task : Task) (s : S)
      → weight_task task < fuel
      → weight_task task ≤ rounds
      → drive evaluate_predicate dispatch rounds (run_task fuel task) s ≡ meaning task s
  unfolding drive step_expr meaning apply run weight weight_continuation resume_entry_eval
  drive_task rounds zero task s f r = absurd (omega arith)
  drive_task rounds (suc fuel) (step (predicate p) k) s f r =
      elim (evaluate_predicate p)
        as (λ o.
          drive evaluate_predicate dispatch rounds
            (o >>= λ matched. finish_with_outcome evaluate_predicate fuel k (outcome matched)) s
          ≡ bind ((o >>= λ matched. ok (outcome matched)), s) (apply k)) [
            | ok matched ↦
                drive_task rounds fuel (finish k (outcome matched)) s (omega arith) (omega arith)
            | err d ↦ refl
          ]
  drive_task zero (suc fuel) (step (action a) k) s f r = absurd (omega arith)
  drive_task (suc rounds) (suc fuel) (step (action a) k) s f r =
      bind-fun_ext (dispatch a s) _ _ λ result s'.
        drive_task rounds (suc (weight_continuation k)) (finish k result) s' (omega arith)
          (omega arith)
  drive_task rounds (suc fuel) (step barrier k) s f r =
      drive_task rounds fuel (finish k (outcome true)) s (omega arith) (omega arith)
  drive_task rounds (suc fuel) (step (and nil) k) s f r =
      drive_task rounds fuel (finish k (outcome true)) s (omega arith) (omega arith)
  drive_task rounds (suc fuel) (step (and (cons item items)) k) s f r =
      drive_task rounds fuel (step item (after_and (cons item items) 1 default_status k)) s
        (omega arith) (omega arith)
      ∙ join-and (cons item items) 1 default_status k (run evaluate_predicate dispatch item s)
  drive_task rounds (suc fuel) (step (or left right) k) s f r =
      drive_task rounds fuel (step left (after_or_left right k)) s (omega arith) (omega arith)
      ∙ join-or right k (run evaluate_predicate dispatch left s)
  drive_task rounds (suc fuel) (step (negate inner) k) s f r =
      drive_task rounds fuel (step inner (after_not k)) s (omega arith) (omega arith)
      ∙ sym (bind_assoc (run evaluate_predicate dispatch inner s) _ _)
  drive_task rounds (suc fuel) (finish done result) s f r = refl
  drive_task rounds (suc fuel) (finish (after_and items next_index accumulated parent) result) s f
        r =
      drive-elim (ends_and result (merge accumulated result.status)) rounds _ _ s _ _
        (drive_task rounds fuel
          (finish parent
            (record { matched = result.matched; status = merge accumulated result.status }))
          s (omega arith) (omega arith))
        (drive-next items next_index fuel rounds (merge accumulated result.status) parent s
          (get_expr? items next_index) (items_from-get_expr? items next_index)
          (drive_task rounds fuel
            (finish parent (record { matched = true; status = merge accumulated result.status })) s
            (omega arith) (omega arith))
          λ item e.
            drive_task rounds fuel
              (step item
                (after_and items (suc next_index) (merge accumulated result.status) parent))
              s (omega (arith, weight_items_from items next_index item e))
              (omega (arith, weight_items_from items next_index item e)))
  drive_task rounds (suc fuel) (finish (after_or_left right parent) result) s f r =
      drive-elim (ends_or result) rounds _ _ s _ _
        (drive_task rounds fuel (finish parent result) s (omega arith) (omega arith))
        (drive_task rounds fuel (step right (after_or_right result.status parent)) s (omega arith)
          (omega arith))
  drive_task rounds (suc fuel) (finish (after_or_right left_status parent) result) s f r =
      drive_task rounds fuel
        (finish parent
          (record { matched = result.matched; status = merge left_status result.status }))
        s (omega arith) (omega arith)
  drive_task rounds (suc fuel) (finish (after_not parent) result) s f r =
      drive_task rounds fuel
        (finish parent (record { matched = not result.matched; status = result.status })) s
        (omega arith) (omega arith)

bind-apply_done :
    {S : Type 0} (evaluate_predicate : RuntimePredicate → Result Bool)
    (dispatch : RuntimeAction → S → Ran S Outcome) (m : Ran S Outcome)
    → bind m (apply evaluate_predicate dispatch done) ≡ m
unfolding apply
bind-apply_done evaluate_predicate dispatch (ok result, s) = refl
bind-apply_done evaluate_predicate dispatch (err d, s) = refl

-- Stepping an expression, handing each pending action to the sink and resuming with its outcome gives
-- the meaning of the expression: the same outcome or error, and the same sink state, so the same
-- actions in the same order; neither the steps nor the rounds of the loop run out of fuel.
pub evaluate_outcome_with_context-eq-run :
    {S : Type 0} (evaluate_predicate : RuntimePredicate → Result Bool)
    (dispatch : RuntimeAction → S → Ran S Outcome) (expr : RuntimeExpr) (s : S)
    → evaluate_outcome_with_context evaluate_predicate dispatch expr s
      ≡ run evaluate_predicate dispatch expr s
unfolding evaluate_outcome_with_context begin_entry_eval meaning apply weight_continuation
evaluate_outcome_with_context-eq-run evaluate_predicate dispatch expr s =
    drive_task evaluate_predicate dispatch (weight expr) (suc (weight expr)) (step expr done) s
      (omega arith) (omega arith)
    ∙ bind-apply_done evaluate_predicate dispatch (run evaluate_predicate dispatch expr s)
