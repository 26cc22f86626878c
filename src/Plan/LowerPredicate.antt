-- ===== src/Plan/LowerPredicate.antt =====
-- Lowering a predicate (src/planner.rs, `lower_predicate` and what it calls).
use rushfind.Perm.Argument.{parse_perm_argument}
use rushfind.Plan.State.{Planning, Lowering, PlanServices, relative_baseline, to_predicate, needing}
use rushfind.Plan.Capabilities.{PlatformCapabilities, PlatformFeature, SupportLevel, exact}
use rushfind.Plan.Types.{RuntimePredicate, TraversalOrder}
use rushfind.Plan.Expr.{RuntimeExpr}
use rushfind.Command.Ast.{Predicate}
use rushfind.Entry.Types.{FollowMode, ReparseTypeClass}
use rushfind.Command.Tokens.{matches}
use rushfind.Diagnostics.{◌>>=◌, Diagnostic, Result, ok, err, new, Message}
use rushfind.Numeric.Comparison.{parse_numeric_argument}
use rushfind.Size.Matcher.{parse_size_argument}
use rushfind.Time.Amount.{parse_time_comparison}
use rushfind.Time.Types.{
  TimestampKind, access, birth, change, modification, RelativeTimeUnit, NewerMatcher,
}
use rushfind.Pattern.Compiled.{CompiledGlob, compile, case_mode_of}
use rushfind.Pattern.Ir.{GlobSlashMode}
use rushfind.Prelude.{
  none, ◌||◌, not, ◌==◌, codes, String, if◌then◌else◌, false, ℕ, true, Bool, some, Option, Bytes,
}

-- `compile_glob`, in the literal slash mode that each caller asks for
unfoldable pub compile_glob : Bytes → Bytes → Bool → Result CompiledGlob
unfolding compile case_mode_of
compile_glob flag pattern case_insensitive =
    compile flag pattern (case_mode_of case_insensitive) GlobSlashMode.literal

unfoldable pub parse_reparse_type : Bytes → Result ReparseTypeClass
parse_reparse_type raw =
    if matches raw "symbolic"
    then ok ReparseTypeClass.symbolic
    else if matches raw "mount-point"
    then ok ReparseTypeClass.mount_point
    else if matches raw "app-exec-link"
    then ok ReparseTypeClass.app_exec_link
    else if matches raw "wsl-symlink"
    then ok ReparseTypeClass.wsl_symlink
    else if matches raw "af-unix"
    then ok ReparseTypeClass.af_unix
    else if matches raw "cloud"
    then ok ReparseTypeClass.cloud
    else if matches raw "projfs"
    then ok ReparseTypeClass.proj_fs
    else if matches raw "other"
    then ok ReparseTypeClass.other
    else err (new (Message.unknown_reparse_type raw) 1)

abbrev pub is_exact : SupportLevel → Bool
is_exact exact = true
is_exact _ = false

abbrev pub is_unsupported : SupportLevel → Bool
is_unsupported (SupportLevel.unsupported message) = true
is_unsupported _ = false

unfoldable pub windows_ownership_predicates_supported : PlatformCapabilities → Bool
windows_ownership_predicates_supported capabilities =
    is_exact (capabilities.support PlatformFeature.windows_ownership_predicates)

-- `unsupported_windows_numeric_ownership`, for one of the two flags with such a message
unfoldable pub unsupported_windows_numeric_ownership :
    Bytes → PlatformCapabilities → Option Diagnostic
unfolding windows_ownership_predicates_supported
unsupported_windows_numeric_ownership message capabilities =
    if not (is_unsupported (capabilities.support PlatformFeature.numeric_ownership))
    then none
    else if not (windows_ownership_predicates_supported capabilities)
    then none
    else some (new (Message.unsupported message) 1)

unfoldable pub require_windows_ownership_predicate :
    Bytes → PlatformCapabilities → Result (Unit {0})
unfolding windows_ownership_predicates_supported
require_windows_ownership_predicate flag capabilities =
    if windows_ownership_predicates_supported capabilities
    then ok tt
    else err (new (Message.only_on_windows flag) 1)

-- `parse_current_timestamp_kind` (src/time.rs)
unfoldable pub parse_current_timestamp_kind : ℕ → Result TimestampKind
parse_current_timestamp_kind value =
    if value == b'a'
    then ok access
    else if value == b'B'
    then ok birth
    else if value == b'c'
    then ok change
    else if value == b'm'
    then ok modification
    else err (new (Message.invalid_current_timestamp_kind value) 1)

module _ (services : PlanServices) (capabilities : PlatformCapabilities) (mode : FollowMode) where
  -- `resolve_reference_matcher` (src/time.rs)
  unfoldable pub resolve_reference_matcher : Bytes → ℕ → ℕ → Bytes → Result NewerMatcher
  unfolding parse_current_timestamp_kind
  resolve_reference_matcher flag current reference reference_arg =
      parse_current_timestamp_kind current >>= λ kind.
      services.resolve_reference_timestamp flag reference reference_arg mode >>= λ timestamp.
      ok (record { current = kind; reference = timestamp })

  -- `parse_relative_time_argument` (src/time.rs), with the baseline of the state
  unfoldable pub relative_time :
      String → Bytes → TimestampKind → RelativeTimeUnit → Lowering RuntimeExpr
  unfolding relative_baseline parse_time_comparison
  relative_time flag raw kind unit planning =
      relative_baseline services planning.state >>= λ baseline.
      parse_time_comparison (codes flag) raw >>= λ comparison. ok (
        RuntimeExpr.predicate (
            RuntimePredicate.relative_time (record {
              kind = kind;
              unit = unit;
              comparison = comparison;
              baseline = baseline;
              daystart = planning.state.daystart_active;
            })),
        planning,
      )

  abbrev pub fixed : RuntimePredicate → Lowering RuntimeExpr
  fixed p planning = ok (RuntimeExpr.predicate p, planning)

  -- A test that only changes how the plan is run.
  abbrev pub option : Planning → Result (RuntimeExpr × Planning)
  option planning = ok (RuntimeExpr.barrier, planning)

  abbrev pub needing_if_insensitive : Bool → Lowering RuntimeExpr → Lowering RuntimeExpr
  needing_if_insensitive false rest = rest
  needing_if_insensitive true rest = needing capabilities PlatformFeature.case_insensitive_glob rest

  abbrev pub refused_or : Option Diagnostic → Lowering RuntimeExpr → Lowering RuntimeExpr
  refused_or (some error) rest planning = err error
  refused_or none rest planning = rest planning

  abbrev pub on_windows : String → Lowering RuntimeExpr → Lowering RuntimeExpr
  on_windows flag rest planning =
      require_windows_ownership_predicate (codes flag) capabilities >>= λ _. rest planning

  abbrev pub flag_if : Bool → String → String → Bytes
  flag_if case_insensitive insensitive sensitive =
      if case_insensitive then codes insensitive else codes sensitive

  unfoldable pub lower_predicate : Predicate → Lowering RuntimeExpr
  unfolding compile_glob parse_reparse_type unsupported_windows_numeric_ownership
      require_windows_ownership_predicate resolve_reference_matcher relative_time
  lower_predicate (Predicate.max_depth value) = λ planning.
      option (record planning { traversal = record planning.traversal { max_depth = some value } })
  lower_predicate (Predicate.min_depth value) = λ planning.
      option (record planning { traversal = record planning.traversal { min_depth = value } })
  lower_predicate Predicate.depth = λ planning. option (record planning {
    traversal = record planning.traversal { order = TraversalOrder.depth_first_post_order };
  })
  lower_predicate Predicate.prune = fixed RuntimePredicate.prune
  lower_predicate Predicate.x_dev =
      needing capabilities PlatformFeature.same_file_system λ planning.
        option
          (record planning { traversal = record planning.traversal { same_file_system = true } })
  lower_predicate Predicate.readable =
      needing capabilities PlatformFeature.access_predicates (fixed RuntimePredicate.readable)
  lower_predicate Predicate.writable =
      needing capabilities PlatformFeature.access_predicates (fixed RuntimePredicate.writable)
  lower_predicate Predicate.executable =
      needing capabilities PlatformFeature.access_predicates (fixed RuntimePredicate.executable)
  lower_predicate (Predicate.name pattern insensitive) = needing_if_insensitive insensitive (
      to_predicate (compile_glob (flag_if insensitive "-iname" "-name") pattern insensitive)
        RuntimePredicate.name)
  lower_predicate (Predicate.path pattern insensitive) = needing_if_insensitive insensitive (
      to_predicate
        (compile_glob (flag_if insensitive "-ipath" "-path") (services.normalize_match_text pattern)
          insensitive)
        RuntimePredicate.path)
  lower_predicate (Predicate.regex pattern insensitive) = λ planning.
      to_predicate
        (services.compile_regex (flag_if insensitive "-iregex" "-regex")
          planning.state.regex_dialect pattern insensitive)
        RuntimePredicate.regex planning
  lower_predicate (Predicate.regex_type raw) = λ planning. services.parse_dialect raw >>= λ dialect.
      option (record planning { state = record planning.state { regex_dialect = dialect } })
  lower_predicate (Predicate.fs_type name) =
      needing capabilities PlatformFeature.fs_type λ planning.
        fixed (RuntimePredicate.fs_type name)
          (record planning { runtime = record planning.runtime { mount_snapshot = true } })
  lower_predicate (Predicate.inum raw) =
      to_predicate (parse_numeric_argument (codes "-inum") raw) RuntimePredicate.inum
  lower_predicate (Predicate.links raw) =
      to_predicate (parse_numeric_argument (codes "-links") raw) RuntimePredicate.links
  lower_predicate (Predicate.same_file path) =
      to_predicate (services.resolve_samefile_reference path mode) RuntimePredicate.same_file
  lower_predicate (Predicate.l_name pattern insensitive) = needing_if_insensitive insensitive (
      to_predicate
        (compile_glob (flag_if insensitive "-ilname" "-lname")
          (services.normalize_match_text pattern) insensitive)
        RuntimePredicate.lname)
  lower_predicate (Predicate.uid raw) =
      refused_or
        (unsupported_windows_numeric_ownership
          (codes "-uid is not supported on Windows; use -owner-sid for SID matching") capabilities)
        (needing capabilities PlatformFeature.numeric_ownership
          (to_predicate (parse_numeric_argument (codes "-uid") raw) RuntimePredicate.uid))
  lower_predicate (Predicate.gid raw) =
      refused_or
        (unsupported_windows_numeric_ownership
          (codes "-gid is not supported on Windows; use -group-sid for SID matching") capabilities)
        (needing capabilities PlatformFeature.numeric_ownership
          (to_predicate (parse_numeric_argument (codes "-gid") raw) RuntimePredicate.gid))
  lower_predicate (Predicate.user raw) =
      needing capabilities PlatformFeature.named_ownership
        (to_predicate (services.resolve_user_principal raw) RuntimePredicate.user)
  lower_predicate (Predicate.group raw) =
      needing capabilities PlatformFeature.named_ownership
        (to_predicate (services.resolve_group_principal raw) RuntimePredicate.group)
  lower_predicate (Predicate.owner raw) =
      on_windows "-owner" (to_predicate (services.resolve_user_principal raw) RuntimePredicate.user)
  lower_predicate (Predicate.owner_sid raw) =
      on_windows "-owner-sid"
        (to_predicate (services.canonicalize_sid_principal raw) RuntimePredicate.user)
  lower_predicate (Predicate.group_sid raw) =
      on_windows "-group-sid"
        (to_predicate (services.canonicalize_sid_principal raw) RuntimePredicate.group)
  lower_predicate Predicate.no_user =
      needing capabilities PlatformFeature.named_ownership (fixed RuntimePredicate.no_user)
  lower_predicate Predicate.no_group =
      needing capabilities PlatformFeature.named_ownership (fixed RuntimePredicate.no_group)
  lower_predicate (Predicate.perm raw) =
      needing capabilities PlatformFeature.mode_bits
        (to_predicate (parse_perm_argument raw) RuntimePredicate.perm)
  lower_predicate (Predicate.flags raw) =
      needing capabilities PlatformFeature.file_flags
        (to_predicate (services.parse_flags_argument raw) RuntimePredicate.flags)
  lower_predicate (Predicate.reparse_type raw) =
      needing capabilities PlatformFeature.reparse_type
        (to_predicate (parse_reparse_type raw) RuntimePredicate.reparse_type)
  lower_predicate (Predicate.size raw) =
      to_predicate (parse_size_argument raw) RuntimePredicate.size
  lower_predicate Predicate.is_empty = fixed RuntimePredicate.is_empty
  lower_predicate (Predicate.used raw) =
      to_predicate (parse_time_comparison (codes "-used") raw)
        (λ comparison. RuntimePredicate.used (record { comparison = comparison }))
  lower_predicate (Predicate.a_time raw) =
      relative_time "-atime" raw TimestampKind.access RelativeTimeUnit.days
  lower_predicate (Predicate.c_time raw) =
      relative_time "-ctime" raw TimestampKind.change RelativeTimeUnit.days
  lower_predicate (Predicate.m_time raw) =
      relative_time "-mtime" raw TimestampKind.modification RelativeTimeUnit.days
  lower_predicate (Predicate.a_min raw) =
      relative_time "-amin" raw TimestampKind.access RelativeTimeUnit.minutes
  lower_predicate (Predicate.c_min raw) =
      relative_time "-cmin" raw TimestampKind.change RelativeTimeUnit.minutes
  lower_predicate (Predicate.m_min raw) =
      relative_time "-mmin" raw TimestampKind.modification RelativeTimeUnit.minutes
  lower_predicate (Predicate.newer path) =
      to_predicate (resolve_reference_matcher (codes "-newer") b'm' b'm' path)
        RuntimePredicate.newer
  lower_predicate (Predicate.a_newer path) =
      to_predicate (resolve_reference_matcher (codes "-anewer") b'a' b'm' path)
        RuntimePredicate.newer
  lower_predicate (Predicate.c_newer path) =
      to_predicate (resolve_reference_matcher (codes "-cnewer") b'c' b'm' path)
        RuntimePredicate.newer
  lower_predicate (Predicate.newer_xy current reference raw) =
      if (current == b'B') || (reference == b'B')
      then needing capabilities PlatformFeature.birth_time (
          to_predicate (resolve_reference_matcher (codes "-newerXY") current reference raw)
            RuntimePredicate.newer)
      else to_predicate (resolve_reference_matcher (codes "-newerXY") current reference raw)
          RuntimePredicate.newer
  lower_predicate Predicate.day_start = λ planning.
      option (record planning { state = record planning.state { daystart_active = true } })
  lower_predicate (Predicate.type_is kind) = fixed (RuntimePredicate.type_is kind)
  lower_predicate (Predicate.x_type_is kind) = fixed (RuntimePredicate.xtype_is kind)
  lower_predicate Predicate.always = fixed RuntimePredicate.always
  lower_predicate Predicate.never = fixed RuntimePredicate.never
