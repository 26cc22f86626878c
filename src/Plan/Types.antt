-- ===== src/Plan/Types.antt =====
-- The predicates and actions of a planned expression (src/planner.rs, src/ast.rs, src/printf.rs,
-- src/exec/template.rs, src/file_output.rs, src/regex_match).
use rushfind.Prelude.{ℕ, Bool, List, Bytes, Option}
use rushfind.Numeric.Comparison.{NumericComparison}
use rushfind.Size.Matcher.{SizeMatcher}
use rushfind.Perm.Matcher.{PermMatcher}
use rushfind.FileFlags.Matcher.{FileFlagsMatcher}
use rushfind.Pattern.Compiled.{CompiledGlob}
use rushfind.Time.Types.{UsedMatcher, RelativeTimeMatcher, NewerMatcher}
use rushfind.Entry.Types.{FileIdentity, PrincipalId, ReparseTypeClass}

pub data TraversalOrder : Type 0 where
  pre_order depth_first_post_order : TraversalOrder

pub data FileTypeFilter : Type 0 where
  file directory symlink block character fifo socket : FileTypeFilter

pub data RegexDialect : Type 0 where
  emacs posix_extended posix_basic rust pcre2 : RegexDialect

pub data RegexBackendKind : Type 0 where
  rust pcre2 : RegexBackendKind

-- The fields that the source compares; the engine's own compiled form is not looked into.
pub record RegexMatcher : Type 0 where
  pub dialect : RegexDialect
  pub backend : RegexBackendKind
  pub original_pattern : Bytes
  pub translated_pattern : Bytes
  pub case_insensitive : Bool

pub data RuntimePredicate : Type 0 where
  prune readable writable executable no_user no_group is_empty always never : RuntimePredicate
  fs_type : Bytes → RuntimePredicate
  name path lname : CompiledGlob → RuntimePredicate
  regex : RegexMatcher → RuntimePredicate
  inum links uid gid : NumericComparison → RuntimePredicate
  same_file : FileIdentity → RuntimePredicate
  user group : PrincipalId → RuntimePredicate
  perm : PermMatcher → RuntimePredicate
  flags : FileFlagsMatcher → RuntimePredicate
  reparse_type : ReparseTypeClass → RuntimePredicate
  size : SizeMatcher → RuntimePredicate
  used : UsedMatcher → RuntimePredicate
  relative_time : RelativeTimeMatcher → RuntimePredicate
  newer : NewerMatcher → RuntimePredicate
  type_is xtype_is : FileTypeFilter → RuntimePredicate

pub data OutputAction : Type 0 where
  print print0 : OutputAction

pub data PrintfTimeFamily : Type 0 where
  access change modification birth : PrintfTimeFamily

pub data PrintfTimeSelector : Type 0 where
  byte : ℕ → PrintfTimeSelector
  epoch_seconds gnu_plus : PrintfTimeSelector

pub data PrintfDirectiveKind : Type 0 where
  path relative_path start_path basename dirname depth file_type file_type_follow size sparseness :
      PrintfDirectiveKind
  mode_octal mode_symbolic link_target inode link_count device blocks512 blocks1024 :
      PrintfDirectiveKind
  user_name user_id user_sid group_name group_id group_sid file_system_type : PrintfDirectiveKind
  full_timestamp : PrintfTimeFamily → PrintfDirectiveKind
  timestamp_part : PrintfTimeFamily → PrintfTimeSelector → PrintfDirectiveKind

pub record PrintfFieldFormat : Type 0 where
  pub left_align : Bool
  pub zero_pad : Bool
  pub always_sign : Bool
  pub alternate : Bool
  pub width : Option ℕ
  pub precision : Option ℕ

pub data PrintfAtom : Type 0 where
  literal : Bytes → PrintfAtom
  directive : PrintfDirectiveKind → PrintfFieldFormat → PrintfAtom
  stop : PrintfAtom

abbrev pub PrintfProgram : Type 0
PrintfProgram = List PrintfAtom

pub data FileOutputTerminator : Type 0 where
  newline nul : FileOutputTerminator

pub data ExecSemantics : Type 0 where
  normal dir_local : ExecSemantics

pub data ExecTemplateSegment : Type 0 where
  literal : Bytes → ExecTemplateSegment
  path : ExecTemplateSegment

pub record ImmediateExecAction : Type 0 where
  pub semantics : ExecSemantics
  pub argv : List (List ExecTemplateSegment)

pub record BatchedExecAction : Type 0 where
  pub id : ℕ
  pub semantics : ExecSemantics
  pub argv_prefix : List Bytes

pub data RuntimeAction : Type 0 where
  output : OutputAction → RuntimeAction
  printf : PrintfProgram → RuntimeAction
  file_print : ℕ → FileOutputTerminator → RuntimeAction
  file_printf : ℕ → PrintfProgram → RuntimeAction
  ls quit delete : RuntimeAction
  file_ls : ℕ → RuntimeAction
  exec_immediate exec_prompt : ImmediateExecAction → RuntimeAction
  exec_batched : BatchedExecAction → RuntimeAction
