-- ===== src/Control/Skips.antt =====
-- The traversal plan decides the descent as the whole expression would (src/runtime_policy.rs,
-- src/traversal_control.rs, src/runner.rs).
use rushfind.Prelude.{
  refl, ◌∙◌, sym, elim-false_ext, if_known, arith, ◌⊎◌, ◌≡◌, Bool, true, false, not, ◌||◌,
}
use rushfind.Diagnostics.{>>=-fun_ext, OnOk-tt, OnOk-eq, >>=-OnOk, OnOk, Result, ok}
use rushfind.Plan.Types.{TraversalOrder, RuntimePredicate}
use rushfind.Plan.Expr.{
  RuntimeExpr, RuntimeExprs, and, or, negate, predicate, action, barrier, nil, cons,
}
use rushfind.Eval.Predicate.{evaluate_predicate, EvalContext, Services}
use rushfind.Entry.Context.{EntryContext}
use rushfind.Entry.Types.{FollowMode}
use rushfind.Control.Verdict.{
  traversal_control_for_entry, prunes, predicate_verdict, verdict_of_items, allow,
  evaluate_for_traversal_with_context, TraversalControl,
}
use rushfind.Control.Policy.{
  build_traversal_control_plan, is_prune, any_contains_prune, project_each, is_pre_order,
  project_for_traversal, contains_prune,
}

module _ (services : Services) (context : EvalContext) (entry : EntryContext)
    (mode : FollowMode) where
  -- No verdict of the result prunes.
  abbrev KeepsDescent : Result TraversalControl → Type 0
  KeepsDescent = OnOk (λ verdict. verdict.prune ≡ false)

  predicate_verdict-KeepsDescent :
      (order : TraversalOrder) (p : RuntimePredicate)
      → (is_prune p ≡ false) ⊎ (is_pre_order order ≡ false)
      → KeepsDescent (predicate_verdict services context entry mode order p)
  unfolding predicate_verdict prunes
  predicate_verdict-KeepsDescent order p h =
      if_known KeepsDescent (is_prune p) _ _
        (λ prune.
          >>=-OnOk (λ prunes'. prunes' ≡ false) _ (prunes services context entry mode order) _
            (in_depth_order (excluded prune h)) (λ prunes' off. off))
        (λ _.
          >>=-OnOk (λ _. Unit) _ (evaluate_predicate services context entry mode p) _ (OnOk-tt _)
            λ matched _. refl)
    where
      excluded : {a b : Bool} → a ≡ true → (a ≡ false) ⊎ (b ≡ false) → b ≡ false
      excluded e h = ground arith

      in_depth_order :
          is_pre_order order ≡ false
          → OnOk (λ prunes'. prunes' ≡ false) (prunes services context entry mode order)
      in_depth_order e = rw e refl

  elim-OnOk :
      (b : Bool) (first : TraversalControl) (rest : Result TraversalControl)
      → KeepsDescent (ok first)
      → KeepsDescent rest
      → KeepsDescent (elim b [ true ↦ ok first | false ↦ rest ])
  elim-OnOk true first rest p q = p
  elim-OnOk false first rest p q = q

  left_of : (a b c : Bool) → (a || b ≡ false) ⊎ (c ≡ false) → (a ≡ false) ⊎ (c ≡ false)
  left_of a b c h = ground arith

  right_of : (a b c : Bool) → (a || b ≡ false) ⊎ (c ≡ false) → (b ≡ false) ⊎ (c ≡ false)
  right_of a b c h = ground arith

  mutual
    unfolding evaluate_for_traversal_with_context contains_prune

    keeps_descent :
        (order : TraversalOrder) (expr : RuntimeExpr)
        → (contains_prune expr ≡ false) ⊎ (is_pre_order order ≡ false)
        → KeepsDescent (evaluate_for_traversal_with_context services context entry mode order expr)
    keeps_descent order (and items) h = keeps_items_descent order allow items refl h
    keeps_descent order (or left right) h =
        >>=-OnOk _ _ (evaluate_for_traversal_with_context services context entry mode order left) _
          (keeps_descent order left (left_of _ _ _ h))
          λ first kept. elim-OnOk first.matched _ _ kept (
            >>=-OnOk _ _
              (evaluate_for_traversal_with_context services context entry mode order right) _
              (keeps_descent order right (right_of _ _ _ h)) λ second kept'. ground arith)
    keeps_descent order (negate inner) h =
        >>=-OnOk _ _ (evaluate_for_traversal_with_context services context entry mode order inner) _
          (keeps_descent order inner h) λ verdict kept. kept
    keeps_descent order (predicate p) h = predicate_verdict-KeepsDescent order p h
    keeps_descent order (action a) h = refl
    keeps_descent order barrier h = refl

    keeps_items_descent :
        (order : TraversalOrder) (verdict : TraversalControl) (items : RuntimeExprs)
        → verdict.prune ≡ false
        → (any_contains_prune items ≡ false) ⊎ (is_pre_order order ≡ false)
        → KeepsDescent (verdict_of_items services context entry mode order verdict items)
    keeps_items_descent order verdict nil v h = v
    keeps_items_descent order verdict (cons item items) v h =
        >>=-OnOk _ _ (evaluate_for_traversal_with_context services context entry mode order item) _
          (keeps_descent order item (left_of _ _ _ h))
          λ next kept. elim-OnOk (not next.matched) _ _ (ground arith) (
            keeps_items_descent order
              (record { matched = verdict.matched; prune = verdict.prune || next.prune }) items
              (ground arith) (right_of _ _ _ h))

  mutual
    unfolding evaluate_for_traversal_with_context project_for_traversal

    -- The projection leaves the verdict alone.
    project_for_traversal-verdict :
        (order : TraversalOrder) (expr : RuntimeExpr)
        → evaluate_for_traversal_with_context services context entry mode order
            (project_for_traversal expr)
          ≡ evaluate_for_traversal_with_context services context entry mode order expr
    project_for_traversal-verdict order (and items) = project_each-verdict order allow items
    project_for_traversal-verdict order (or left right) =
        rw (project_for_traversal-verdict order left) (
          >>=-fun_ext (evaluate_for_traversal_with_context services context entry mode order left) _
            _
            λ first.
              elim-false_ext first.matched _ _ _
                λ _. rw (project_for_traversal-verdict order right) refl)
    project_for_traversal-verdict order (negate inner) =
        rw (project_for_traversal-verdict order inner) refl
    project_for_traversal-verdict order (predicate p) = refl
    project_for_traversal-verdict order (action a) = refl
    project_for_traversal-verdict order barrier = refl

    project_each-verdict :
        (order : TraversalOrder) (verdict : TraversalControl) (items : RuntimeExprs)
        → verdict_of_items services context entry mode order verdict (project_each items)
          ≡ verdict_of_items services context entry mode order verdict items
    project_each-verdict order verdict nil = refl
    project_each-verdict order verdict (cons item items) =
        rw (project_for_traversal-verdict order item) (
          >>=-fun_ext (evaluate_for_traversal_with_context services context entry mode order item) _
            _
            λ next. elim-false_ext (not next.matched) _ _ _ λ _.
              project_each-verdict order
                (record { matched = verdict.matched; prune = verdict.prune || next.prune }) items)

-- Where the whole expression has a verdict on an entry, so has the traversal plan, none included, and
-- both prune or neither does.
pub traversal_control_for_entry-prune :
    (services : Services) (context : EvalContext) (entry : EntryContext) (mode : FollowMode)
    (order : TraversalOrder) (expr : RuntimeExpr) (verdict : TraversalControl)
    → evaluate_for_traversal_with_context services context entry mode order expr ≡ ok verdict
    → (planned : TraversalControl) × (traversal_control_for_entry services context entry mode order
          (build_traversal_control_plan expr order)
        ≡ ok planned)
      × (planned.prune ≡ verdict.prune)
unfolding traversal_control_for_entry build_traversal_control_plan
traversal_control_for_entry-prune services context entry mode order expr verdict h =
    if_known
      (λ plan.
        (planned : TraversalControl) × (traversal_control_for_entry services context entry mode
            order plan
          ≡ ok planned)
        × (planned.prune ≡ verdict.prune))
      (not (is_pre_order order) || not (contains_prune expr)) _ _
      (λ skipped. (
        allow,
        refl,
        sym (
            OnOk-eq _ _ verdict
              (keeps_descent services context entry mode order expr (ground arith)) h),
      ))
      (λ _.
        (verdict, project_for_traversal-verdict services context entry mode order expr ∙ h, refl))
