-- ===== src/Plan/LowerAction.antt =====
-- Lowering an action (src/planner.rs, `lower_action` and what it calls).
use rushfind.Plan.State.{Planning, Lowering, PlanServices, require_platform_feature, warn, needing}
use rushfind.Plan.Capabilities.{
  PlatformCapabilities, PlatformFeature, uses_windows_native_output_contract,
}
use rushfind.Plan.Types.{
  RuntimeAction, OutputAction, PrintfProgram, PrintfAtom, PrintfDirectiveKind, FileOutputTerminator,
  ExecSemantics,
}
use rushfind.Plan.Expr.{RuntimeExpr}
use rushfind.Command.Ast.{Action}
use rushfind.Diagnostics.{◌>>=◌, Result, ok, err, new, parse, Message}
use rushfind.Exec.Template.{compile_immediate_exec, compile_batched_exec}
use rushfind.Std.Paths.{path_eq}
use rushfind.Prelude.{
  none, ◌++◌, ◌^◌, ◌%◌, not, Option, [], length, some, ℕ, if◌then◌else◌, ◌∷◌, ◌+◌, false, String,
  any, codes, Bool, true, List, Bytes,
}

-- `BTreeMap::get`, whose keys are compared as paths
abbrev pub path_id : List (Bytes × ℕ) → Bytes → Option ℕ
path_id [] path = none
path_id ((known, id) ∷ ids) path =
    let later = path_id ids path in if path_eq known path then some id else later

-- `register_file_output`, where the path is new
abbrev pub add_file_output : Bytes → Planning → ℕ × Planning
add_file_output path planning =
    let id = length planning.state.file_outputs in
    (
      id,
      record planning {
        state = record planning.state {
          file_outputs = planning.state.file_outputs ++ record { id = id; path = path } ∷ [];
          file_output_ids = (path, id) ∷ planning.state.file_output_ids;
        };
      },
    )

-- What follows the look-up of `register_file_output`.
abbrev pub registered : Option ℕ → Bytes → Planning → ℕ × Planning
registered (some existing) path planning = (existing, planning)
registered none path planning = add_file_output path planning

unfoldable pub register_file_output : Bytes → Planning → ℕ × Planning
unfolding path_eq
register_file_output path planning =
    registered (path_id planning.state.file_output_ids path) path planning

abbrev pub is_file_system_type : PrintfAtom → Bool
is_file_system_type (PrintfAtom.directive PrintfDirectiveKind.file_system_type field_format) = true
is_file_system_type _ = false

-- `requires_mount_snapshot` (src/printf.rs)
unfoldable pub requires_mount_snapshot : PrintfProgram → Bool
requires_mount_snapshot program = any is_file_system_type program

abbrev pub to_action : RuntimeAction → Lowering RuntimeExpr
to_action a planning = ok (RuntimeExpr.action a, planning)

abbrev pub locale_required : Planning → Planning
locale_required planning = record planning {
  runtime = record planning.runtime { messages_locale_required = true };
}

abbrev pub safe_path_required : Planning → Planning
safe_path_required planning = record planning {
  runtime = record planning.runtime { execdir_requires_safe_path = true };
}

abbrev pub snapshot_required : Planning → Planning
snapshot_required planning = record planning {
  runtime = record planning.runtime { mount_snapshot = true };
}

-- `next_exec_batch_id`, which is a `u32`
abbrev pub next_batch : Planning → Planning
next_batch planning = record planning {
  state = record planning.state {
    next_exec_batch_id = (planning.state.next_exec_batch_id + 1) % 2 ^ 32;
  };
}

unfoldable pub lower_batched : ExecSemantics → List Bytes → Lowering RuntimeExpr
unfolding compile_batched_exec
lower_batched semantics argv planning =
    compile_batched_exec planning.state.next_exec_batch_id semantics argv >>= λ batched.
    to_action (RuntimeAction.exec_batched batched) (next_batch planning)

module _ (services : PlanServices) (capabilities : PlatformCapabilities) where
  -- One atom of `validate_platform_printf_program`.
  unfoldable pub validate_directive : Bytes → PrintfDirectiveKind → Planning → Result Planning
  unfolding require_platform_feature uses_windows_native_output_contract
  validate_directive flag PrintfDirectiveKind.user_sid planning =
      if uses_windows_native_output_contract capabilities
      then ok planning
      else err (new (Message.only_on_windows (codes "%US")) 1)
  validate_directive flag PrintfDirectiveKind.group_sid planning =
      if uses_windows_native_output_contract capabilities
      then ok planning
      else err (new (Message.only_on_windows (codes "%GS")) 1)
  validate_directive flag PrintfDirectiveKind.user_id planning =
      require_platform_feature capabilities PlatformFeature.numeric_ownership planning
  validate_directive flag PrintfDirectiveKind.group_id planning =
      require_platform_feature capabilities PlatformFeature.numeric_ownership planning
  validate_directive flag PrintfDirectiveKind.mode_octal planning =
      require_platform_feature capabilities PlatformFeature.mode_bits planning
  validate_directive flag PrintfDirectiveKind.mode_symbolic planning =
      require_platform_feature capabilities PlatformFeature.mode_bits planning
  validate_directive flag PrintfDirectiveKind.device planning =
      if uses_windows_native_output_contract capabilities
      then err (new (Message.unsupported_directive_on_windows flag) 1)
      else ok planning
  validate_directive flag PrintfDirectiveKind.blocks512 planning =
      if uses_windows_native_output_contract capabilities
      then err (new (Message.unsupported_directive_on_windows flag) 1)
      else ok planning
  validate_directive flag PrintfDirectiveKind.blocks1024 planning =
      if uses_windows_native_output_contract capabilities
      then err (new (Message.unsupported_directive_on_windows flag) 1)
      else ok planning
  validate_directive flag _ planning = ok planning

  abbrev pub validate_atom : Bytes → PrintfAtom → Planning → Result Planning
  validate_atom flag (PrintfAtom.directive kind field_format) planning =
      validate_directive flag kind planning
  validate_atom flag _ planning = ok planning

  unfoldable pub validate_platform_printf_program :
      Bytes → PrintfProgram → Planning → Result Planning
  unfolding validate_directive
  validate_platform_printf_program flag [] planning = ok planning
  validate_platform_printf_program flag (atom ∷ atoms) planning =
      validate_atom flag atom planning >>= validate_platform_printf_program flag atoms

  -- `if requires_mount_snapshot() { … }`
  unfoldable pub require_snapshot : PrintfProgram → Planning → Result Planning
  unfolding requires_mount_snapshot require_platform_feature
  require_snapshot program planning =
      if requires_mount_snapshot program
      then (require_platform_feature capabilities PlatformFeature.fs_type planning >>= λ next.
          ok (snapshot_required next))
      else ok planning

  -- What `-printf` and `-fprintf` do with a format.
  unfoldable pub lower_format : String → Bytes → Lowering PrintfProgram
  unfolding require_snapshot validate_platform_printf_program
  lower_format flag format planning =
      services.compile_printf_program (codes flag) format >>= λ (program, warnings).
      require_snapshot program planning >>= λ next.
      validate_platform_printf_program (codes flag) program next >>= λ last.
      ok (program, warn warnings last)

  unfoldable pub require_modes_for_ls : Planning → Result Planning
  unfolding require_platform_feature uses_windows_native_output_contract
  require_modes_for_ls planning =
      if not (uses_windows_native_output_contract capabilities)
      then require_platform_feature capabilities PlatformFeature.mode_bits planning
      else ok planning

  unfoldable pub lower_file_print : Bytes → FileOutputTerminator → Lowering RuntimeExpr
  unfolding register_file_output
  lower_file_print path terminator planning =
      let (id, next) = register_file_output path planning in
      to_action (RuntimeAction.file_print id terminator) next

  unfoldable pub lower_file_printf :
      Bytes → PrintfProgram × Planning → Result (RuntimeExpr × Planning)
  unfolding register_file_output
  lower_file_printf path (program, planning) =
      let (id, next) = register_file_output path planning in
      to_action (RuntimeAction.file_printf id program) next

  unfoldable pub lower_file_ls : Bytes → Lowering RuntimeExpr
  unfolding register_file_output
  lower_file_ls path planning =
      let (id, next) = register_file_output path planning in
      to_action (RuntimeAction.file_ls id) next

  -- The `match` of `lower_action`.
  unfoldable pub lower_seen_action : Action → Lowering RuntimeExpr
  unfolding lower_format require_modes_for_ls lower_file_print lower_file_printf lower_file_ls
      lower_batched compile_immediate_exec
  lower_seen_action Action.print = to_action (RuntimeAction.output OutputAction.print)
  lower_seen_action Action.print0 = to_action (RuntimeAction.output OutputAction.print0)
  lower_seen_action (Action.printf format) = λ planning.
      lower_format "-printf" format planning >>= λ (program, next).
      to_action (RuntimeAction.printf program) next
  lower_seen_action (Action.f_print path) = lower_file_print path FileOutputTerminator.newline
  lower_seen_action (Action.f_print0 path) = lower_file_print path FileOutputTerminator.nul
  lower_seen_action (Action.f_printf path format) =
      λ planning. lower_format "-fprintf" format planning >>= lower_file_printf path
  lower_seen_action Action.ls =
      λ planning. require_modes_for_ls planning >>= to_action RuntimeAction.ls
  lower_seen_action (Action.fls path) =
      λ planning. require_modes_for_ls planning >>= lower_file_ls path
  lower_seen_action Action.quit = to_action RuntimeAction.quit
  lower_seen_action (Action.exec argv false) =
      to_action (RuntimeAction.exec_immediate (compile_immediate_exec ExecSemantics.normal argv))
  lower_seen_action (Action.exec argv true) = lower_batched ExecSemantics.normal argv
  lower_seen_action (Action.exec_dir argv false) = λ planning.
      to_action (RuntimeAction.exec_immediate (compile_immediate_exec ExecSemantics.dir_local argv))
        (safe_path_required planning)
  lower_seen_action (Action.exec_dir argv true) =
      λ planning. lower_batched ExecSemantics.dir_local argv (safe_path_required planning)
  lower_seen_action (Action.confirm argv false) =
      needing capabilities PlatformFeature.messages_locale λ planning.
        to_action (RuntimeAction.exec_prompt (compile_immediate_exec ExecSemantics.normal argv))
          (locale_required planning)
  lower_seen_action (Action.confirm argv true) =
      λ planning. err (parse (Message.only_semicolon (codes "-ok")))
  lower_seen_action (Action.confirm_dir argv false) =
      needing capabilities PlatformFeature.messages_locale λ planning.
        to_action (RuntimeAction.exec_prompt (compile_immediate_exec ExecSemantics.dir_local argv))
          (safe_path_required (locale_required planning))
  lower_seen_action (Action.confirm_dir argv true) =
      λ planning. err (parse (Message.only_semicolon (codes "-okdir")))
  lower_seen_action Action.delete = λ planning.
      to_action RuntimeAction.delete
        (record planning { state = record planning.state { saw_delete = true } })

  unfoldable pub lower_action : Action → Lowering RuntimeExpr
  unfolding lower_seen_action
  lower_action a planning =
      lower_seen_action a (record planning { state = record planning.state { saw_action = true } })
