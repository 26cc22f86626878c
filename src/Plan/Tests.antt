-- ===== src/Plan/Tests.antt =====
-- Commands that the properties are applied to: `-fprint out -depth -fprint out/`, and `-depth`.
use rushfind.Plan.State.{PlanServices, Planning}
use rushfind.Plan.Capabilities.{PlatformCapabilities, SupportLevel, OutputContract}
use rushfind.Plan.Planner.{plan_command, lower_expr, resolve_follow_mode, new_planning}
use rushfind.Plan.Changes.{Numbered, Distinct, has_action}
use rushfind.Plan.PlanChanges.{
  acts, deletes, orders, plan_command-order, plan_command-file_outputs, plan_command-root,
}
use rushfind.Plan.Optimizer.Pass.{optimize_read_only_and_chains}
use rushfind.Plan.Expr.{RuntimeExpr, RuntimeExprs}
use rushfind.Plan.Types.{RuntimeAction, OutputAction}
use rushfind.Walk.Walker.{is_post_order}
use rushfind.Command.Ast.{Expr, CommandAst, Action, Predicate, conjunction, expr, no_exprs}
use rushfind.Std.Paths.{path_eq}
use rushfind.Time.Types.{Timestamp}
use rushfind.Prelude.Int.{ℤ}
use rushfind.Diagnostics.{Message, Diagnostic, ok, err, parse, OnOk}
use rushfind.Prelude.{refl, true, false, ◌||◌, [], ◌∷◌, ◌≡◌, codes, if◌then◌else◌}

abbrev refusal : Diagnostic
refusal = parse Message.expected_close

abbrev no_services : PlanServices
no_services = record {
  compile_regex = λ flag dialect pattern insensitive. err refusal;
  parse_dialect = λ raw. err refusal;
  resolve_samefile_reference = λ path mode. err refusal;
  resolve_user_principal = λ raw. err refusal;
  resolve_group_principal = λ raw. err refusal;
  canonicalize_sid_principal = λ raw. err refusal;
  parse_flags_argument = λ raw. err refusal;
  resolve_reference_timestamp = λ flag reference raw mode. err refusal;
  local_day_start = λ now. err refusal;
  compile_printf_program = λ flag format. err refusal;
  normalize_match_text = λ raw. raw;
}

abbrev all_exact : PlatformCapabilities
all_exact = record {
  support = λ feature. SupportLevel.exact;
  output_contract = OutputContract.posix;
}

abbrev twice : CommandAst
twice = record {
  start_paths = codes "." ∷ [];
  global_options = [];
  root = conjunction (
      expr (Expr.action (Action.f_print (codes "out"))) (
        expr (Expr.predicate Predicate.depth)
          (expr (Expr.action (Action.f_print (codes "out/"))) no_exprs)));
}

abbrev epoch : Timestamp
epoch = record { seconds = ℤ.pos 0; nanos = ℤ.pos 0 }

slashes_do_not_count :
    (path_eq (codes "out/") (codes "out") ≡ true)
    × (path_eq (codes "a/./b") (codes "a//b") ≡ true)
    × (path_eq (codes "./out") (codes "out") ≡ false)
    × (path_eq (codes "/out") (codes "out") ≡ false)
unfolding path_eq
slashes_do_not_count = (refl, refl, refl, refl)

one_file :
    OnOk
      (λ plan.
        (plan.file_outputs ≡ record { id = 0; path = codes "out" } ∷ [])
        × (is_post_order plan.traversal.order ≡ true))
      (plan_command no_services all_exact twice 1 epoch 1)
unfolding plan_command
one_file = (refl, refl)

plan_command-order_example :
    OnOk
      (λ plan. is_post_order plan.traversal.order ≡ (deletes twice.root || orders twice.root))
      (plan_command no_services all_exact twice 1 epoch 1)
plan_command-order_example = plan_command-order no_services all_exact twice 1 epoch 1

plan_command-file_outputs_example :
    OnOk
      (λ plan. Numbered 0 plan.file_outputs × Distinct plan.file_outputs)
      (plan_command no_services all_exact twice 1 epoch 1)
plan_command-file_outputs_example = plan_command-file_outputs no_services all_exact twice 1 epoch 1

-- An expression without an action: `-depth`.
abbrev silent : CommandAst
silent = record {
  start_paths = codes "." ∷ [];
  global_options = [];
  root = conjunction (expr (Expr.predicate Predicate.depth) no_exprs);
}

plan_command-root_example :
    OnOk
      (λ plan.
        (lowered : RuntimeExpr) × (s : Planning) × (lower_expr no_services all_exact
            (resolve_follow_mode silent.global_options)
            silent.root
            (new_planning no_services all_exact epoch)
          ≡ ok (lowered, s))
        × (has_action lowered ≡ acts silent.root)
        × (plan.root ≡ (
            if acts silent.root
            then optimize_read_only_and_chains lowered
            else RuntimeExpr.and (
                RuntimeExprs.cons (optimize_read_only_and_chains lowered) (
                  RuntimeExprs.cons
                    (RuntimeExpr.action (RuntimeAction.output OutputAction.print))
                    RuntimeExprs.nil)))))
      (plan_command no_services all_exact silent 1 epoch 1)
plan_command-root_example = plan_command-root no_services all_exact silent 1 epoch 1
