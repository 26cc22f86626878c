-- ===== src/Plan/State.antt =====
-- What planning keeps as it goes through an expression (src/planner.rs).
use rushfind.Walk.Types.{TraversalOptions}
use rushfind.Time.Types.{Timestamp}
use rushfind.Plan.Types.{RuntimePredicate, RegexDialect, RegexMatcher, PrintfProgram}
use rushfind.Plan.Expr.{RuntimeExpr}
use rushfind.Plan.Capabilities.{SupportLevel, PlatformFeature, PlatformCapabilities}
use rushfind.Diagnostics.{Message, err, ◌>>=◌, ok, Result, new}
use rushfind.Entry.Types.{FileIdentity, PrincipalId, FollowMode}
use rushfind.FileFlags.Matcher.{FileFlagsMatcher}
use rushfind.Prelude.{◌∷◌, ◌++◌, ℕ, if◌then◌else◌, codes, [], Bool, false, Bytes, List}

pub record RuntimeRequirements : Type 0 where
  pub mount_snapshot : Bool
  pub evaluation_now : Timestamp
  pub execdir_requires_safe_path : Bool
  pub messages_locale_required : Bool

pub record PlannedFileOutput : Type 0 where
  pub id : ℕ
  pub path : Bytes

pub record PlanningState : Type 0 where
  -- `temporal`
  pub now : Timestamp
  pub daystart_active : Bool
  pub regex_dialect : RegexDialect
  pub saw_action : Bool
  pub saw_delete : Bool
  pub next_exec_batch_id : ℕ
  pub startup_warnings : List Bytes
  pub file_outputs : List PlannedFileOutput
  -- `BTreeMap<PathBuf, FileOutputId>`
  pub file_output_ids : List (Bytes × ℕ)

-- The three values that lowering changes.
pub record Planning : Type 0 where
  pub traversal : TraversalOptions
  pub runtime : RuntimeRequirements
  pub state : PlanningState

-- Lowering a part of the expression.
abbrev pub Lowering : Type 0 → Type 0
Lowering A = Planning → Result (A × Planning)

-- What lowering asks of code that is not modelled: the regex engines and dialects, the accounts database,
-- the file system and the clock, flag arguments, printf formats, and path normalization.
pub record PlanServices : Type 0 where
  pub compile_regex : Bytes → RegexDialect → Bytes → Bool → Result RegexMatcher
  pub parse_dialect : Bytes → Result RegexDialect
  pub resolve_samefile_reference : Bytes → FollowMode → Result FileIdentity
  pub resolve_user_principal : Bytes → Result PrincipalId
  pub resolve_group_principal : Bytes → Result PrincipalId
  pub canonicalize_sid_principal : Bytes → Result PrincipalId
  pub parse_flags_argument : Bytes → Result FileFlagsMatcher
  pub resolve_reference_timestamp : Bytes → ℕ → Bytes → FollowMode → Result Timestamp
  pub local_day_start : Timestamp → Result Timestamp
  -- the program, and the warnings
  pub compile_printf_program : Bytes → Bytes → Result (PrintfProgram × List Bytes)
  pub normalize_match_text : Bytes → Bytes

-- `PlanningState::new`
abbrev pub new_state : Timestamp → PlanningState
new_state now = record {
  now = now;
  daystart_active = false;
  regex_dialect = RegexDialect.emacs;
  saw_action = false;
  saw_delete = false;
  next_exec_batch_id = 0;
  startup_warnings = [];
  file_outputs = [];
  file_output_ids = [];
}

abbrev pub warn : List Bytes → Planning → Planning
warn warnings planning = record planning {
  state = record planning.state { startup_warnings = planning.state.startup_warnings ++ warnings };
}

-- `require_platform_feature`
abbrev pub require_level : SupportLevel → Planning → Result Planning
require_level SupportLevel.exact planning = ok planning
require_level (SupportLevel.approximate message) planning =
    ok (warn ((codes "rfd: warning: " ++ message) ∷ []) planning)
require_level (SupportLevel.unsupported message) planning =
    err (new (Message.unsupported message) 1)

unfoldable pub require_platform_feature :
    PlatformCapabilities → PlatformFeature → Planning → Result Planning
require_platform_feature capabilities feature planning =
    require_level (capabilities.support feature) planning

-- `relative_baseline`
unfoldable pub relative_baseline : PlanServices → PlanningState → Result Timestamp
relative_baseline services state =
    if state.daystart_active then services.local_day_start state.now else ok state.now

-- A predicate, once its argument has been read.
abbrev pub to_predicate : {A : Type 0} → Result A → (A → RuntimePredicate) → Lowering RuntimeExpr
to_predicate argument make planning =
    argument >>= λ a. ok (RuntimeExpr.predicate (make a), planning)

-- A predicate that needs a feature.
abbrev pub needing :
    PlatformCapabilities → PlatformFeature → Lowering RuntimeExpr → Lowering RuntimeExpr
needing capabilities feature rest planning =
    require_platform_feature capabilities feature planning >>= rest
