-- ===== src/Plan/ActionChanges.antt =====
-- An action is noted, and `-delete` is noted as such (src/planner.rs).
use rushfind.Plan.Changes.{
  Changes, Does, Changes-refl, Changes-trans, has_action, or_false,
  require_platform_feature-Changes,
}
use rushfind.Plan.State.{require_platform_feature, Planning, PlanServices, Lowering}
use rushfind.Plan.Capabilities.{
  uses_windows_native_output_contract, PlatformCapabilities, PlatformFeature,
}
use rushfind.Plan.LowerAction.{
  safe_path_required, snapshot_required, requires_mount_snapshot, lower_action, lower_seen_action,
  register_file_output, lower_batched, lower_format, validate_directive,
  validate_platform_printf_program, require_snapshot, require_modes_for_ls, lower_file_print,
  lower_file_printf, lower_file_ls,
}
use rushfind.Plan.PredicateChanges.{or_true}
use rushfind.Command.Ast.{Action}
use rushfind.Prelude.{
  codes, String, not, if_cases, refl, if◌then◌else◌, [], ◌∙◌, ◌∷◌, ◌≡◌, Bytes, List, Bool, true,
  false,
}
use rushfind.Plan.Types.{PrintfAtom, PrintfDirectiveKind, ExecSemantics, PrintfProgram}
use rushfind.Diagnostics.{Diagnostic, OnOk-map, OnOk-tt, ok, err, ◌>>=◌, >>=-OnOk, OnOk, Result}
use rushfind.Walk.Walker.{is_post_order}
use rushfind.Exec.Template.{compile_batched_exec}
use rushfind.Plan.Expr.{RuntimeExpr}
use rushfind.Plan.OutputChanges.{register_file_output-Changes}

abbrev pub is_delete : Action → Bool
is_delete Action.delete = true
is_delete _ = false

lower_batched-Does :
    (semantics : ExecSemantics) (argv : List Bytes) (s : Planning)
    → OnOk
        (λ r. (has_action r.0 ≡ true) × Changes false false false s r.1)
        (lower_batched semantics argv s)
unfolding lower_batched has_action
lower_batched-Does semantics argv s =
    >>=-OnOk (λ _. Unit {0}) _ (compile_batched_exec s.state.next_exec_batch_id semantics argv) _
      (OnOk-tt _) λ batched _. (refl, Changes-refl s)

-- Two steps, of which each changes nothing that is followed here.
>>=-Same :
    (s : Planning) (first : Result Planning) (rest : Planning → Result Planning)
    → OnOk (Changes false false false s) first
    → ((t : Planning) → OnOk (Changes false false false t) (rest t))
    → OnOk (Changes false false false s) (first >>= rest)
>>=-Same s (err e) rest f h = tt
>>=-Same s (ok t) rest f h =
    OnOk-map (Changes false false false t) (Changes false false false s) (rest t)
      (λ u c. Changes-trans false false false false false false s t u f c) (h t)

module _ (services : PlanServices) (capabilities : PlatformCapabilities) where
  abbrev Same : Planning → Result Planning → Type 0
  Same s = OnOk (Changes false false false s)

  if_ok-Same :
      (b : Bool) (error : Diagnostic) (s : Planning) → Same s (if b then ok s else err error)
  if_ok-Same true error s = Changes-refl s
  if_ok-Same false error s = tt

  if_err-Same :
      (b : Bool) (error : Diagnostic) (s : Planning) → Same s (if b then err error else ok s)
  if_err-Same true error s = tt
  if_err-Same false error s = Changes-refl s

  validate_directive-Same :
      (flag : Bytes) (kind : PrintfDirectiveKind) (s : Planning)
      → Same s (validate_directive services capabilities flag kind s)
  unfolding validate_directive
  validate_directive-Same flag PrintfDirectiveKind.user_sid s =
      if_ok-Same (uses_windows_native_output_contract capabilities) _ s
  validate_directive-Same flag PrintfDirectiveKind.group_sid s =
      if_ok-Same (uses_windows_native_output_contract capabilities) _ s
  validate_directive-Same flag PrintfDirectiveKind.user_id s =
      require_platform_feature-Changes capabilities PlatformFeature.numeric_ownership s
  validate_directive-Same flag PrintfDirectiveKind.group_id s =
      require_platform_feature-Changes capabilities PlatformFeature.numeric_ownership s
  validate_directive-Same flag PrintfDirectiveKind.mode_octal s =
      require_platform_feature-Changes capabilities PlatformFeature.mode_bits s
  validate_directive-Same flag PrintfDirectiveKind.mode_symbolic s =
      require_platform_feature-Changes capabilities PlatformFeature.mode_bits s
  validate_directive-Same flag PrintfDirectiveKind.device s =
      if_err-Same (uses_windows_native_output_contract capabilities) _ s
  validate_directive-Same flag PrintfDirectiveKind.blocks512 s =
      if_err-Same (uses_windows_native_output_contract capabilities) _ s
  validate_directive-Same flag PrintfDirectiveKind.blocks1024 s =
      if_err-Same (uses_windows_native_output_contract capabilities) _ s
  validate_directive-Same flag _ s = Changes-refl s

  validate_platform_printf_program-Same :
      (flag : Bytes) (program : PrintfProgram) (s : Planning)
      → Same s (validate_platform_printf_program services capabilities flag program s)
  unfolding validate_platform_printf_program
  validate_platform_printf_program-Same flag [] s = Changes-refl s
  validate_platform_printf_program-Same flag (PrintfAtom.directive kind field_format ∷ atoms) s =
      >>=-Same s (validate_directive services capabilities flag kind s) _
        (validate_directive-Same flag kind s) (validate_platform_printf_program-Same flag atoms)
  validate_platform_printf_program-Same flag (_ ∷ atoms) s =
      validate_platform_printf_program-Same flag atoms s

  require_snapshot-Same :
      (program : PrintfProgram) (s : Planning)
      → Same s (require_snapshot services capabilities program s)
  unfolding require_snapshot
  require_snapshot-Same program s =
      if_cases (Same s) (requires_mount_snapshot program)
        (require_platform_feature capabilities PlatformFeature.fs_type s >>= λ next.
          ok (snapshot_required next))
        (ok s)
        (>>=-Same s (require_platform_feature capabilities PlatformFeature.fs_type s) _
          (require_platform_feature-Changes capabilities PlatformFeature.fs_type s)
          λ t. Changes-refl t)
        (Changes-refl s)

  require_modes_for_ls-Same : (s : Planning) → Same s (require_modes_for_ls services capabilities s)
  unfolding require_modes_for_ls
  require_modes_for_ls-Same s =
      if_cases (Same s) (not (uses_windows_native_output_contract capabilities))
        (require_platform_feature capabilities PlatformFeature.mode_bits s) (ok s)
        (require_platform_feature-Changes capabilities PlatformFeature.mode_bits s) (Changes-refl s)

  lower_format-Same :
      (flag : String) (format : Bytes) (s : Planning)
      → OnOk
          (λ r. Changes false false false s r.1)
          (lower_format services capabilities flag format s)
  unfolding lower_format
  lower_format-Same flag format s =
      >>=-OnOk (λ _. Unit {0}) _ (services.compile_printf_program (codes flag) format) _ (OnOk-tt _)
        λ compiled _.
          >>=-OnOk (Changes false false false s) _
            (require_snapshot services capabilities compiled.0 s) _
            (require_snapshot-Same compiled.0 s)
            λ t c.
              >>=-OnOk (Changes false false false t) _
                (validate_platform_printf_program services capabilities (codes flag) compiled.0 t) _
                (validate_platform_printf_program-Same (codes flag) compiled.0 t)
                λ u d. Changes-trans false false false false false false s t u c d

  -- An action that is reached with what is followed here unchanged.
  abbrev Acts : Planning → Result (RuntimeExpr × Planning) → Type 0
  Acts s = OnOk (λ r. (has_action r.0 ≡ true) × Changes false false false s r.1)

  then-Acts :
      (s : Planning) (first : Result Planning) (rest : Lowering RuntimeExpr)
      → Same s first
      → ((t : Planning) → Acts t (rest t))
      → Acts s (first >>= rest)
  then-Acts s (err e) rest f h = tt
  then-Acts s (ok t) rest f h =
      OnOk-map (λ r. (has_action r.0 ≡ true) × Changes false false false t r.1) _ (rest t)
        (λ r k. (k.0, Changes-trans false false false false false false s t (r.1) f (k.1))) (h t)

  lower_seen_action-Changes :
      (a : Action) (s : Planning)
      → OnOk
          (λ r. (has_action r.0 ≡ true) × Changes false (is_delete a) false s r.1)
          (lower_seen_action services capabilities a s)
  unfolding lower_seen_action lower_file_print lower_file_printf lower_file_ls has_action
  lower_seen_action-Changes Action.print s = (refl, Changes-refl s)
  lower_seen_action-Changes Action.print0 s = (refl, Changes-refl s)
  lower_seen_action-Changes (Action.printf format) s =
      >>=-OnOk (λ r. Changes false false false s r.1) _
        (lower_format services capabilities "-printf" format s) _
        (lower_format-Same "-printf" format s) λ r c. (refl, c)
  lower_seen_action-Changes (Action.f_print path) s = (refl, register_file_output-Changes path s)
  lower_seen_action-Changes (Action.f_print0 path) s = (refl, register_file_output-Changes path s)
  lower_seen_action-Changes (Action.f_printf path format) s =
      >>=-OnOk (λ r. Changes false false false s r.1) _
        (lower_format services capabilities "-fprintf" format s) _
        (lower_format-Same "-fprintf" format s)
        λ r c. (
          refl,
          Changes-trans false false false false false false s (r.1)
              (register_file_output path r.1).1 c (register_file_output-Changes path (r.1)),
        )
  lower_seen_action-Changes Action.ls s =
      then-Acts s (require_modes_for_ls services capabilities s) _ (require_modes_for_ls-Same s)
        λ t. (refl, Changes-refl t)
  lower_seen_action-Changes (Action.fls path) s =
      then-Acts s (require_modes_for_ls services capabilities s) _ (require_modes_for_ls-Same s)
        λ t. (refl, register_file_output-Changes path t)
  lower_seen_action-Changes Action.quit s = (refl, Changes-refl s)
  lower_seen_action-Changes (Action.exec argv false) s = (refl, Changes-refl s)
  lower_seen_action-Changes (Action.exec argv true) s =
      lower_batched-Does ExecSemantics.normal argv s
  lower_seen_action-Changes (Action.exec_dir argv false) s = (refl, Changes-refl s)
  lower_seen_action-Changes (Action.exec_dir argv true) s =
      lower_batched-Does ExecSemantics.dir_local argv (safe_path_required s)
  lower_seen_action-Changes (Action.confirm argv false) s =
      then-Acts s (require_platform_feature capabilities PlatformFeature.messages_locale s) _
        (require_platform_feature-Changes capabilities PlatformFeature.messages_locale s)
        λ t. (refl, Changes-refl t)
  lower_seen_action-Changes (Action.confirm argv true) s = tt
  lower_seen_action-Changes (Action.confirm_dir argv false) s =
      then-Acts s (require_platform_feature capabilities PlatformFeature.messages_locale s) _
        (require_platform_feature-Changes capabilities PlatformFeature.messages_locale s)
        λ t. (refl, Changes-refl t)
  lower_seen_action-Changes (Action.confirm_dir argv true) s = tt
  lower_seen_action-Changes Action.delete s = (
    refl,
    (
      or_false s.state.saw_action,
      or_true s.state.saw_delete,
      or_false (is_post_order s.traversal.order),
      λ w. w,
    ),
  )

  pub lower_action-Does :
      (a : Action) (s : Planning)
      → Does true (is_delete a) false s (lower_action services capabilities a s)
  unfolding lower_action
  lower_action-Does a s =
      let noted : Planning = record s { state = record s.state { saw_action = true } } in
      OnOk-map _ _ (lower_seen_action services capabilities a noted)
        (λ r k. (k.0, (k.1.0 ∙ or_true s.state.saw_action, k.1.1, k.1.2, k.1.3)))
        (lower_seen_action-Changes a noted)
