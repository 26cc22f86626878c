-- ===== src/Plan/Planner.antt =====
-- Planning a command (src/planner.rs).
use rushfind.Plan.State.{
  Planning, PlannedFileOutput, RuntimeRequirements, Lowering, PlanServices, new_state,
}
use rushfind.Plan.Capabilities.{PlatformCapabilities}
use rushfind.Plan.Types.{RuntimeAction, OutputAction, TraversalOrder}
use rushfind.Plan.Expr.{RuntimeExpr, RuntimeExprs}
use rushfind.Plan.Actions.{
  ActionProfile, ParallelExecutionPolicy, compute_action_profile, choose_parallel_policy,
}
use rushfind.Plan.LowerPredicate.{lower_predicate}
use rushfind.Plan.LowerAction.{lower_action}
use rushfind.Plan.Optimizer.Pass.{optimize_read_only_and_chains}
use rushfind.Control.Policy.{RuntimePolicy, derive_with_parallelism, build_traversal_control_plan}
use rushfind.Command.Ast.{
  Expr, Exprs, CommandAst, GlobalOption, conjunction, either, negation, no_exprs, expr,
}
use rushfind.Walk.Types.{TraversalOptions}
use rushfind.Time.Types.{Timestamp}
use rushfind.Entry.Types.{FollowMode}
use rushfind.Diagnostics.{◌>>=◌, Result, ok}
use rushfind.Prelude.{leb, Option, [], Bytes, if◌then◌else◌, ◌∷◌, ℕ, false, List, none, Bool}

pub data ExecutionMode : Type 0 where
  ordered_single parallel_relaxed : ExecutionMode

pub record ExecutionPlan : Type 0 where
  pub start_paths : List Bytes
  pub follow_mode : FollowMode
  pub traversal : TraversalOptions
  pub runtime : RuntimeRequirements
  pub startup_warnings : List Bytes
  pub file_outputs : List PlannedFileOutput
  pub root : RuntimeExpr
  pub mode : ExecutionMode
  pub parallel_policy : Option ParallelExecutionPolicy
  pub action_profile : ActionProfile
  pub runtime_policy : RuntimePolicy
  pub traversal_control : Option RuntimeExpr

-- The closure of the `fold` in `resolve_follow_mode`.
abbrev pub follow_mode_after : FollowMode → GlobalOption → FollowMode
follow_mode_after mode (GlobalOption.follow next) = next
follow_mode_after mode GlobalOption.version = FollowMode.physical

abbrev pub fold_follow_mode : FollowMode → List GlobalOption → FollowMode
fold_follow_mode mode [] = mode
fold_follow_mode mode (option ∷ options) = fold_follow_mode (follow_mode_after mode option) options

unfoldable pub resolve_follow_mode : List GlobalOption → FollowMode
resolve_follow_mode options = fold_follow_mode FollowMode.physical options

module _ (services : PlanServices) (capabilities : PlatformCapabilities) where
  module _ (mode : FollowMode) where
    unfoldable mutual
      unfolding lower_predicate lower_action

      pub lower_expr : Expr → Lowering RuntimeExpr
      lower_expr (conjunction items) planning =
          lower_items items planning >>= λ (lowered, next). ok (RuntimeExpr.and lowered, next)
      lower_expr (either left right) planning = lower_expr left planning >>= λ (l, next).
          lower_expr right next >>= λ (r, last). ok (RuntimeExpr.or l r, last)
      lower_expr (negation e) planning =
          lower_expr e planning >>= λ (lowered, next). ok (RuntimeExpr.negate lowered, next)
      lower_expr (Expr.predicate p) planning = lower_predicate services capabilities mode p planning
      lower_expr (Expr.action a) planning = lower_action services capabilities a planning

      -- `for item in items`
      pub lower_items : Exprs → Lowering RuntimeExprs
      lower_items no_exprs planning = ok (RuntimeExprs.nil, planning)
      lower_items (expr e items) planning = lower_expr e planning >>= λ (lowered, next).
          lower_items items next >>= λ (rest, last). ok (RuntimeExprs.cons lowered rest, last)

  -- What planning starts from.
  abbrev pub new_planning : Timestamp → Planning
  new_planning now = record {
    traversal = record {
      min_depth = 0;
      max_depth = none;
      same_file_system = false;
      order = TraversalOrder.pre_order;
    };
    runtime = record {
      mount_snapshot = false;
      evaluation_now = now;
      execdir_requires_safe_path = false;
      messages_locale_required = false;
    };
    state = new_state now;
  }

  -- `if state.saw_delete { … }`
  abbrev pub ordered_for_delete : Planning → TraversalOptions
  ordered_for_delete planning =
      if planning.state.saw_delete
      then record planning.traversal { order = TraversalOrder.depth_first_post_order }
      else planning.traversal

  abbrev pub print_after : RuntimeExpr → RuntimeExpr
  print_after lowered = RuntimeExpr.and (
      RuntimeExprs.cons lowered (
        RuntimeExprs.cons (RuntimeExpr.action (RuntimeAction.output OutputAction.print))
          RuntimeExprs.nil))

  -- The expression, with `-print` where there is no action.
  unfoldable pub with_action : Bool → RuntimeExpr → RuntimeExpr
  with_action saw_action lowered = if saw_action then lowered else print_after lowered

  abbrev pub mode_for : ℕ → ExecutionMode
  mode_for workers =
      if leb workers 1 then ExecutionMode.ordered_single else ExecutionMode.parallel_relaxed

  -- What follows the lowering; `derive` asks the host for its parallelism.
  unfoldable pub finish_plan : CommandAst → ℕ → ℕ → RuntimeExpr × Planning → ExecutionPlan
  unfolding optimize_read_only_and_chains resolve_follow_mode compute_action_profile
      choose_parallel_policy derive_with_parallelism build_traversal_control_plan with_action
  finish_plan ast workers host_parallelism (lowered, planning) =
      let traversal = ordered_for_delete planning in
      let root = with_action planning.state.saw_action (optimize_read_only_and_chains lowered) in
      record {
        start_paths = ast.start_paths;
        follow_mode = resolve_follow_mode ast.global_options;
        traversal = traversal;
        runtime = planning.runtime;
        startup_warnings = planning.state.startup_warnings;
        file_outputs = planning.state.file_outputs;
        root = root;
        mode = mode_for workers;
        parallel_policy =
            choose_parallel_policy workers traversal.order (compute_action_profile root);
        action_profile = compute_action_profile root;
        runtime_policy =
            derive_with_parallelism workers traversal.order (leb workers 1) host_parallelism;
        traversal_control = build_traversal_control_plan root traversal.order;
      }

  -- `plan_command_with_now_and_capabilities`
  unfoldable pub plan_command : CommandAst → ℕ → Timestamp → ℕ → Result ExecutionPlan
  unfolding lower_expr finish_plan resolve_follow_mode
  plan_command ast workers now host_parallelism =
      lower_expr (resolve_follow_mode ast.global_options) ast.root (new_planning now) >>= λ lowered.
      ok (finish_plan ast workers host_parallelism lowered)
