-- ===== src/Eval/Predicate.antt =====
-- `evaluate_predicate` and the evaluation context (src/eval.rs).
use mathlib.Core.List.{List}
use rushfind.Prelude.{
  bytes_eq, ℕ, Bool, true, false, not, ◌&&◌, [], ◌∷◌, Option, none, some, ◌==◌, if◌then◌else◌,
  Bytes,
}
use rushfind.Diagnostics.{Result, ok, err, ◌>>=◌, new, needs_mount_snapshot, panic}
use rushfind.Numeric.Comparison
use rushfind.Size.Matcher as Size
use rushfind.Perm.Matcher as Perm
use rushfind.FileFlags.Matcher as FileFlags
use rushfind.Pattern.Compiled.{CompiledGlob, is_match}
use rushfind.Time.Types.{
  Timestamp, TimestampKind, UsedMatcher, RelativeTimeMatcher, NewerMatcher, newer_matches,
}
use rushfind.Entry.Types.{
  FollowMode, EntryKind, AccessMode, FileIdentity, PrincipalId, ReparseTypeClass,
}
use rushfind.Entry.Context.{
  EntryContext, active_kind, xtype_kind, active_identity, active_inode, active_link_count,
  active_link_target, active_uid, active_gid, active_owner, active_group, active_mode_bits,
  active_flag_bits, physical_reparse_tag, active_size, active_is_empty, active_atime, active_ctime,
  active_mtime, active_birth_time, active_mount_id, access,
}
use rushfind.Plan.Types.{RuntimePredicate, RegexMatcher, FileTypeFilter}

-- `FilesystemSnapshot`: the filesystem types by mount, and those that are known.
pub record FilesystemSnapshot : Type 0 where
  pub types_by_key : List (ℕ × Bytes)
  pub known_types : List Bytes

pub record EvalContext : Type 0 where
  pub mount_snapshot : Option FilesystemSnapshot
  pub evaluation_now : Option Timestamp

-- What a predicate asks of code that is not modelled: the regex engines, the accounts database,
-- path normalization, and the decimal arithmetic of time windows.
pub record Services : Type 0 where
  pub regex_is_match : RegexMatcher → Bytes → Result Bool
  pub normalize_match_text : Bytes → Bytes
  pub user_exists : PrincipalId → Result Bool
  pub group_exists : PrincipalId → Result Bool
  pub classify_reparse_tag : ℕ → ReparseTypeClass
  pub used_matches : UsedMatcher → Timestamp → Timestamp → Bool
  pub relative_time_matches : RelativeTimeMatcher → Timestamp → Result Bool

abbrev contains_bytes : List Bytes → Bytes → Bool
contains_bytes [] x = false
contains_bytes (y ∷ ys) x = if bytes_eq y x then true else contains_bytes ys x

abbrev type_for_mount_key : List (ℕ × Bytes) → ℕ → Option Bytes
type_for_mount_key [] key = none
type_for_mount_key ((k, name) ∷ rest) key =
    if k == key then some name else type_for_mount_key rest key

abbrev pub identity_eq : FileIdentity → FileIdentity → Bool
identity_eq (FileIdentity.unix d i) (FileIdentity.unix d' i') = d == d' && i == i'
identity_eq (FileIdentity.windows v f) (FileIdentity.windows v' f') = v == v' && f == f'
identity_eq _ _ = false

abbrev principal_eq : PrincipalId → PrincipalId → Bool
principal_eq (PrincipalId.numeric a) (PrincipalId.numeric b) = a == b
principal_eq (PrincipalId.sid a) (PrincipalId.sid b) = bytes_eq a b
principal_eq _ _ = false

abbrev class_code : ReparseTypeClass → ℕ
class_code ReparseTypeClass.symbolic = 0
class_code ReparseTypeClass.mount_point = 1
class_code ReparseTypeClass.app_exec_link = 2
class_code ReparseTypeClass.wsl_symlink = 3
class_code ReparseTypeClass.af_unix = 4
class_code ReparseTypeClass.cloud = 5
class_code ReparseTypeClass.proj_fs = 6
class_code ReparseTypeClass.other = 7

unfoldable pub matches_type : FileTypeFilter → EntryKind → Bool
matches_type FileTypeFilter.file EntryKind.file = true
matches_type FileTypeFilter.directory EntryKind.directory = true
matches_type FileTypeFilter.symlink EntryKind.symlink = true
matches_type FileTypeFilter.block EntryKind.block = true
matches_type FileTypeFilter.character EntryKind.character = true
matches_type FileTypeFilter.fifo EntryKind.fifo = true
matches_type FileTypeFilter.socket EntryKind.socket = true
matches_type _ _ = false

module _ (entry : EntryContext) (mode : FollowMode) where
  -- Birth times are handled apart; here they are the `unreachable!` arm.
  abbrev entry_timestamp : TimestampKind → Result Timestamp
  entry_timestamp TimestampKind.access = active_atime entry mode
  entry_timestamp TimestampKind.birth = err (new panic 101)
  entry_timestamp TimestampKind.change = active_ctime entry mode
  entry_timestamp TimestampKind.modification = active_mtime entry mode

  abbrev birth_matches : NewerMatcher → Option Timestamp → Bool
  birth_matches matcher none = false
  birth_matches matcher (some actual) = newer_matches matcher actual

  abbrev matches_newer_at : NewerMatcher → TimestampKind → Result Bool
  matches_newer_at matcher TimestampKind.birth =
      active_birth_time entry mode >>= λ actual. ok (birth_matches matcher actual)
  matches_newer_at matcher kind =
      entry_timestamp kind >>= λ actual. ok (newer_matches matcher actual)

module _ (services : Services) (context : EvalContext) (entry : EntryContext)
    (mode : FollowMode) where
  open services use {
    regex_is_match, normalize_match_text, user_exists, group_exists, classify_reparse_tag,
    used_matches, relative_time_matches,
  }

  abbrev lname_matches : CompiledGlob → Option Bytes → Result Bool
  lname_matches glob none = ok false
  lname_matches glob (some target) = is_match glob (normalize_match_text target)

  abbrev mount_type_is : Bytes → Option Bytes → Bool
  mount_type_is type_name none = false
  mount_type_is type_name (some actual) = bytes_eq actual type_name

  abbrev snapshot_matches : Bytes → Option FilesystemSnapshot → Result Bool
  snapshot_matches type_name none = err (new needs_mount_snapshot 1)
  snapshot_matches type_name (some snapshot) =
      if contains_bytes snapshot.known_types type_name
      then (active_mount_id entry mode >>= λ mount.
          ok (mount_type_is type_name (type_for_mount_key snapshot.types_by_key mount)))
      else ok false

  abbrev tag_matches : ReparseTypeClass → Option ℕ → Bool
  tag_matches expected none = false
  tag_matches expected (some tag) = class_code (classify_reparse_tag tag) == class_code expected

  abbrev name_or_empty : Option Bytes → Bytes
  name_or_empty none = []
  name_or_empty (some name) = name

  unfoldable pub evaluate_predicate : RuntimePredicate → Result Bool
  evaluate_predicate RuntimePredicate.prune = ok true
  evaluate_predicate (RuntimePredicate.fs_type type_name) =
      snapshot_matches type_name context.mount_snapshot
  evaluate_predicate RuntimePredicate.readable = access entry AccessMode.read
  evaluate_predicate RuntimePredicate.writable = access entry AccessMode.write
  evaluate_predicate RuntimePredicate.executable = access entry AccessMode.execute
  evaluate_predicate (RuntimePredicate.name glob) = is_match glob (name_or_empty entry.file_name)
  evaluate_predicate (RuntimePredicate.path glob) = is_match glob (normalize_match_text entry.path)
  evaluate_predicate (RuntimePredicate.regex matcher) =
      regex_is_match matcher (normalize_match_text entry.path)
  evaluate_predicate (RuntimePredicate.inum expected) =
      active_inode entry mode >>= λ inode. ok (Comparison.matches expected inode)
  evaluate_predicate (RuntimePredicate.links expected) =
      active_link_count entry mode >>= λ count. ok (Comparison.matches expected count)
  evaluate_predicate (RuntimePredicate.same_file expected) =
      active_identity entry mode >>= λ identity. ok (identity_eq expected identity)
  evaluate_predicate (RuntimePredicate.lname glob) =
      active_link_target entry mode >>= lname_matches glob
  evaluate_predicate (RuntimePredicate.uid expected) =
      active_uid entry mode >>= λ uid. ok (Comparison.matches expected uid)
  evaluate_predicate (RuntimePredicate.gid expected) =
      active_gid entry mode >>= λ gid. ok (Comparison.matches expected gid)
  evaluate_predicate (RuntimePredicate.user expected) =
      active_owner entry mode >>= λ owner. ok (principal_eq expected owner)
  evaluate_predicate (RuntimePredicate.group expected) =
      active_group entry mode >>= λ group. ok (principal_eq expected group)
  evaluate_predicate RuntimePredicate.no_user =
      active_owner entry mode >>= λ owner. user_exists owner >>= λ known. ok (not known)
  evaluate_predicate RuntimePredicate.no_group =
      active_group entry mode >>= λ group. group_exists group >>= λ known. ok (not known)
  evaluate_predicate (RuntimePredicate.perm matcher) =
      active_mode_bits entry mode >>= λ bits. ok (Perm.matches matcher bits)
  evaluate_predicate (RuntimePredicate.flags matcher) =
      active_flag_bits entry mode >>= λ bits. ok (FileFlags.matches matcher bits)
  evaluate_predicate (RuntimePredicate.reparse_type expected) =
      physical_reparse_tag entry >>= λ tag. ok (tag_matches expected tag)
  evaluate_predicate (RuntimePredicate.size matcher) =
      active_size entry mode >>= λ size. ok (Size.matches matcher size)
  evaluate_predicate RuntimePredicate.is_empty = active_is_empty entry mode
  evaluate_predicate (RuntimePredicate.used matcher) = active_atime entry mode >>= λ atime.
      active_ctime entry mode >>= λ ctime. ok (used_matches matcher atime ctime)
  evaluate_predicate (RuntimePredicate.relative_time matcher) =
      entry_timestamp entry mode matcher.kind >>= relative_time_matches matcher
  evaluate_predicate (RuntimePredicate.newer matcher) =
      matches_newer_at entry mode matcher matcher.current
  evaluate_predicate (RuntimePredicate.type_is expected) =
      active_kind entry mode >>= λ kind. ok (matches_type expected kind)
  evaluate_predicate (RuntimePredicate.xtype_is expected) =
      xtype_kind entry mode >>= λ kind. ok (matches_type expected kind)
  evaluate_predicate RuntimePredicate.always = ok true
  evaluate_predicate RuntimePredicate.never = ok false
