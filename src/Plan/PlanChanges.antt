-- ===== src/Plan/PlanChanges.antt =====
-- What a plan owes to the expression that it was made from (src/planner.rs).
use rushfind.Plan.Changes.{
  Outputs, Distinct, Numbered, Changes, Does, Changes-refl, Changes-trans, has_action,
  some_has_action,
}
use rushfind.Plan.PredicateChanges.{is_depth, lower_predicate-Does}
use rushfind.Plan.ActionChanges.{is_delete, lower_action-Does}
use rushfind.Plan.Planner.{
  new_planning, with_action, resolve_follow_mode, finish_plan, plan_command, ordered_for_delete,
  ExecutionPlan, lower_expr, lower_items,
}
use rushfind.Plan.State.{Planning, PlanServices}
use rushfind.Plan.Capabilities.{PlatformCapabilities}
use rushfind.Command.Ast.{
  CommandAst, Action, Predicate, Expr, Exprs, conjunction, either, negation, no_exprs, expr,
}
use rushfind.Diagnostics.{OnOk-known, ok, OnOk, >>=-OnOk}
use rushfind.Prelude.{if◌then◌else◌, ap, ℕ, refl, ◌||◌, ◌≡◌, Bool, true, false}
use rushfind.Entry.Types.{FollowMode}
use rushfind.Time.Types.{Timestamp}
use rushfind.Walk.Walker.{is_post_order}
use rushfind.Plan.Types.{RuntimeAction, OutputAction}
use rushfind.Plan.Expr.{RuntimeExpr, RuntimeExprs}
use rushfind.Plan.Optimizer.Pass.{optimize_read_only_and_chains}

-- Whether a test that holds of predicates, or one that holds of actions, holds somewhere.
unfoldable mutual
  pub occurs : (Predicate → Bool) → (Action → Bool) → Expr → Bool
  occurs p a (conjunction items) = occurs_in p a items
  occurs p a (either left right) = occurs p a left || occurs p a right
  occurs p a (negation e) = occurs p a e
  occurs p a (Expr.predicate x) = p x
  occurs p a (Expr.action x) = a x

  pub occurs_in : (Predicate → Bool) → (Action → Bool) → Exprs → Bool
  occurs_in p a no_exprs = false
  occurs_in p a (expr e items) = occurs p a e || occurs_in p a items

abbrev pub acts : Expr → Bool
acts = occurs (λ _. false) (λ _. true)

abbrev pub deletes : Expr → Bool
deletes = occurs (λ _. false) is_delete

abbrev pub orders : Expr → Bool
orders = occurs is_depth (λ _. false)

module _ (services : PlanServices) (capabilities : PlatformCapabilities) (mode : FollowMode) where
  mutual
    unfolding occurs lower_expr has_action

    lower_expr-Does :
        (e : Expr) (s : Planning)
        → Does (acts e) (deletes e) (orders e) s (lower_expr services capabilities mode e s)
    lower_expr-Does (conjunction items) s =
        >>=-OnOk _ _ (lower_items services capabilities mode items s) _
          (lower_items-Changes items s) λ r k. k
    lower_expr-Does (either left right) s =
        >>=-OnOk _ _ (lower_expr services capabilities mode left s) _ (lower_expr-Does left s)
          λ r k.
            >>=-OnOk _ _ (lower_expr services capabilities mode right (r.1)) _
              (lower_expr-Does right (r.1))
              λ r' k'. (
                rw (k.0, k'.0) refl,
                Changes-trans (acts left) (deletes left) (orders left) (acts right) (deletes right)
                    (orders right) s (r.1) (r'.1) (k.1) (k'.1),
              )
    lower_expr-Does (negation e) s =
        >>=-OnOk _ _ (lower_expr services capabilities mode e s) _ (lower_expr-Does e s) λ r k. k
    lower_expr-Does (Expr.predicate p) s = lower_predicate-Does services capabilities mode p s
    lower_expr-Does (Expr.action a) s = lower_action-Does services capabilities a s

    lower_items-Changes :
        (items : Exprs) (s : Planning)
        → OnOk
            (λ r.
              (some_has_action r.0 ≡ occurs_in (λ _. false) (λ _. true) items)
              × Changes
                  (occurs_in (λ _. false) (λ _. true) items)
                  (occurs_in (λ _. false) is_delete items)
                  (occurs_in is_depth (λ _. false) items)
                  s
                  r.1)
            (lower_items services capabilities mode items s)
    lower_items-Changes no_exprs s = (refl, Changes-refl s)
    lower_items-Changes (expr e items) s =
        >>=-OnOk _ _ (lower_expr services capabilities mode e s) _ (lower_expr-Does e s) λ r k.
          >>=-OnOk _ _ (lower_items services capabilities mode items (r.1)) _
            (lower_items-Changes items (r.1))
            λ r' k'. (rw (k.0, k'.0) refl, Changes-trans _ _ _ _ _ _ s (r.1) (r'.1) (k.1) (k'.1))

module _ (services : PlanServices) (capabilities : PlatformCapabilities) (ast : CommandAst)
    (workers : ℕ) (now : Timestamp) (host_parallelism : ℕ) where
  -- What holds of the lowered expression and the state behind it holds of the plan that they make.
  finished :
      (P : ExecutionPlan → Type 0)
      → ((lowered : RuntimeExpr) (s : Planning)
          → lower_expr services capabilities
              (resolve_follow_mode ast.global_options)
              ast.root
              (new_planning services capabilities now)
            ≡ ok (lowered, s)
          → has_action lowered ≡ acts ast.root
          → Changes
              (acts ast.root)
              (deletes ast.root)
              (orders ast.root)
              (new_planning services capabilities now)
              s
          → P (finish_plan services capabilities ast workers host_parallelism (lowered, s)))
      → OnOk P (plan_command services capabilities ast workers now host_parallelism)
  unfolding plan_command
  finished P h =
      let mode = resolve_follow_mode ast.global_options in
      let start = new_planning services capabilities now in
      let lowering = lower_expr services capabilities mode ast.root start in
      >>=-OnOk _ P lowering
        (λ lowered. ok (finish_plan services capabilities ast workers host_parallelism lowered))
        (OnOk-known
          (λ r.
            (has_action r.0 ≡ acts ast.root)
            × Changes (acts ast.root) (deletes ast.root) (orders ast.root) start r.1)
          lowering (lower_expr-Does services capabilities mode ast.root start))
        λ r (e, k). h (r.0) (r.1) e (k.0) (k.1)

  -- A plan that is made walks depth-first exactly if `-depth` or `-delete` occurs in the expression,
  -- wherever it stands.
  pub plan_command-order :
      OnOk
        (λ plan. is_post_order plan.traversal.order ≡ (deletes ast.root || orders ast.root))
        (plan_command services capabilities ast workers now host_parallelism)
  unfolding finish_plan
  plan_command-order =
      finished (λ plan. is_post_order plan.traversal.order ≡ (deletes ast.root || orders ast.root))
        λ lowered s e a c. by_delete s (deletes ast.root) (c.1) (c.2)
    where
      by_delete :
          (s : Planning) (d : Bool)
          → s.state.saw_delete ≡ d
          → is_post_order s.traversal.order ≡ orders ast.root
          → is_post_order (ordered_for_delete services capabilities s).order
            ≡ (d || orders ast.root)
      by_delete s true e o = rw e refl
      by_delete s false e o = rw e o

  -- The output files of a plan that is made are numbered from 0, and no two of them have equal paths, as
  -- `PathBuf` compares paths.
  pub plan_command-file_outputs :
      OnOk
        (λ plan. Numbered 0 plan.file_outputs × Distinct plan.file_outputs)
        (plan_command services capabilities ast workers now host_parallelism)
  unfolding finish_plan
  plan_command-file_outputs =
      finished (λ plan. Numbered 0 plan.file_outputs × Distinct plan.file_outputs)
        λ lowered s e a c. let w : Outputs s.state = c.3 (tt, tt, λ path. refl) in (w.0, w.1)

  -- A plan that is made comes from the expression that the command's expression is lowered to, under the
  -- follow mode that its options resolve to, which has an action exactly if the command's expression has
  -- one. Where there is an action the plan runs the lowered expression, optimized; where there is none,
  -- it runs this and then `-print`.
  pub plan_command-root :
      OnOk
        (λ plan.
          (lowered : RuntimeExpr) × (s : Planning) × (lower_expr services capabilities
              (resolve_follow_mode ast.global_options)
              ast.root
              (new_planning services capabilities now)
            ≡ ok (lowered, s))
          × (has_action lowered ≡ acts ast.root)
          × (plan.root ≡ (
              if acts ast.root
              then optimize_read_only_and_chains lowered
              else RuntimeExpr.and (
                  RuntimeExprs.cons (optimize_read_only_and_chains lowered) (
                    RuntimeExprs.cons
                      (RuntimeExpr.action (RuntimeAction.output OutputAction.print))
                      RuntimeExprs.nil)))))
        (plan_command services capabilities ast workers now host_parallelism)
  unfolding finish_plan with_action
  plan_command-root = finished _ λ lowered s e a c. (
    lowered,
    s,
    e,
    a,
    ap (λ b. with_action services capabilities b (optimize_read_only_and_chains lowered)) (c.0),
  )
