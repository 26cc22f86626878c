-- ===== src/Entry/Context.antt =====
-- `EntryContext` and its accessors (src/entry.rs).
-- Each `OnceLock` keeps the first answer of the platform for the life of an entry. The record holds
-- those answers, and an accessor is a function of them.
use mathlib.Core.Option
use rushfind.Prelude.{
  not, ◌&&◌, ◌==◌, codes, ℕ, Bool, true, false, Bytes, Option, none, some, if◌then◌else◌,
}
use rushfind.Diagnostics.{Result, ok, err, ◌>>=◌, new, missing_field as missing}
use rushfind.Entry.Types.{
  is_traversal_link, is_symlink, inode_number, principal_numeric, FileIdentity, PrincipalId,
  key_numeric, file, directory, FollowMode, EntryKind, AccessMode, MetadataView, physical,
  command_line_only, logical,
}
use rushfind.Time.Types.{Timestamp}

pub record EntryContext : Type 0 where
  pub path : Bytes
  pub depth : ℕ
  pub is_command_line_root : Bool
  -- `path.file_name()`
  pub file_name : Option Bytes
  pub physical_file_type_hint : Option EntryKind
  -- `metadata_view(path, false)`
  pub physical_view : Result MetadataView
  -- `metadata_view(path, true).ok()`
  pub followed_view : Option MetadataView
  pub read_link : Result Bytes
  pub directory_is_empty : Result Bool
  -- `reader.access(path, mode)`, none on an error
  pub reader_access : AccessMode → Option Bool

unfoldable pub uses_logical_view : EntryContext → FollowMode → Bool
uses_logical_view entry physical = false
uses_logical_view entry command_line_only = entry.is_command_line_root
uses_logical_view entry logical = true

unfoldable pub physical_is_traversal_link : EntryContext → Result Bool
unfolding is_traversal_link
physical_is_traversal_link entry = do view ← entry.physical_view; ok (is_traversal_link view)

unfoldable pub logical_view : EntryContext → Option MetadataView
unfolding physical_is_traversal_link
logical_view entry = elim (physical_is_traversal_link entry) [
  | ok link ↦ if link then entry.followed_view else none
  | err _ ↦ none
]

abbrev pub kind_hint_or : Option EntryKind → Result EntryKind → Result EntryKind
kind_hint_or (some kind) other = ok kind
kind_hint_or none other = other

unfoldable pub physical_kind : EntryContext → Result EntryKind
physical_kind entry =
    kind_hint_or entry.physical_file_type_hint (entry.physical_view >>= λ view. ok view.kind)

-- `uses_logical_view(mode) && physical_is_traversal_link()?`
unfoldable pub follows_link : EntryContext → FollowMode → Result Bool
unfolding uses_logical_view physical_is_traversal_link
follows_link entry mode =
    if uses_logical_view entry mode then physical_is_traversal_link entry else ok false

abbrev pub view_or : Option MetadataView → Result MetadataView → Result MetadataView
view_or (some view) other = ok view
view_or none other = other

unfoldable pub active_view : EntryContext → FollowMode → Result MetadataView
unfolding follows_link logical_view
active_view entry mode = do
  follows ← follows_link entry mode
  if follows then view_or (logical_view entry) entry.physical_view else entry.physical_view

abbrev pub kind_of_or : Option MetadataView → Result EntryKind → Result EntryKind
kind_of_or (some view) other = ok view.kind
kind_of_or none other = other

unfoldable pub active_kind : EntryContext → FollowMode → Result EntryKind
unfolding follows_link logical_view physical_kind
active_kind entry mode = do
  follows ← follows_link entry mode
  if follows then kind_of_or (logical_view entry) (physical_kind entry) else physical_kind entry

unfoldable pub logical_kind : EntryContext → Result EntryKind
unfolding physical_is_traversal_link logical_view physical_kind
logical_kind entry = do
  link ← physical_is_traversal_link entry
  if link then kind_of_or (logical_view entry) (physical_kind entry) else physical_kind entry

unfoldable pub xtype_kind : EntryContext → FollowMode → Result EntryKind
unfolding physical_kind logical_kind
xtype_kind entry logical = physical_kind entry
xtype_kind entry _ = logical_kind entry

-- `ok_or_else(|| missing_field(field, path))`
abbrev pub or_missing {ℓ} : {A : Type ℓ} → Bytes → Bytes → Option A → Result A
or_missing field path none = err (new (missing field path) 1)
or_missing field path (some a) = ok a

unfoldable pub physical_identity : EntryContext → Result FileIdentity
physical_identity entry =
    entry.physical_view >>= λ view. or_missing (codes "file identity") entry.path view.identity

abbrev pub ok? {ℓ} : {A : Type ℓ} → Result A → Option A
ok? (ok a) = some a
ok? (err _) = none

abbrev pub identity_of : Option MetadataView → Option FileIdentity
identity_of none = none
identity_of (some view) = view.identity

unfoldable pub logical_identity : EntryContext → Option FileIdentity
unfolding physical_is_traversal_link physical_identity logical_view
logical_identity entry = elim (physical_is_traversal_link entry) [
  | err _ ↦ none
  | ok link ↦ if link then identity_of (logical_view entry) else ok? (physical_identity entry)
]

abbrev pub ok_or {ℓ} : {A : Type ℓ} → Option A → Result A → Result A
ok_or (some a) other = ok a
ok_or none other = other

unfoldable pub active_identity : EntryContext → FollowMode → Result FileIdentity
unfolding follows_link logical_identity physical_identity
active_identity entry mode = do
  follows ← follows_link entry mode
  if follows
      then ok_or (logical_identity entry) (physical_identity entry)
      else physical_identity entry

-- The accessors that read one field of the active view.
module _ (entry : EntryContext) (mode : FollowMode) where
  unfoldable pub active_inode : Result ℕ
  unfolding active_identity inode_number
  active_inode = active_identity entry mode >>= λ identity. ok (inode_number identity)

  unfoldable pub active_owner : Result PrincipalId
  unfolding active_view
  active_owner =
      active_view entry mode >>= λ view. or_missing (codes "owner id") entry.path view.owner

  unfoldable pub active_group : Result PrincipalId
  unfolding active_view
  active_group =
      active_view entry mode >>= λ view. or_missing (codes "group id") entry.path view.group

  unfoldable pub active_uid : Result ℕ
  unfolding active_owner principal_numeric
  active_uid =
      active_owner >>= λ owner. or_missing (codes "owner id") entry.path (principal_numeric owner)

  unfoldable pub active_gid : Result ℕ
  unfolding active_group principal_numeric
  active_gid =
      active_group >>= λ group. or_missing (codes "group id") entry.path (principal_numeric group)

  unfoldable pub active_mode_bits : Result ℕ
  unfolding active_view
  active_mode_bits =
      active_view entry mode >>= λ view. or_missing (codes "mode bits") entry.path view.mode_bits

  unfoldable pub active_flag_bits : Result (Option ℕ)
  unfolding active_view
  active_flag_bits = active_view entry mode >>= λ view. ok view.flag_bits

  unfoldable pub active_size : Result ℕ
  unfolding active_view
  active_size = active_view entry mode >>= λ view. ok view.size

  unfoldable pub active_atime : Result Timestamp
  unfolding active_view
  active_atime = active_view entry mode >>= λ view. ok view.atime

  unfoldable pub active_ctime : Result Timestamp
  unfolding active_view
  active_ctime = active_view entry mode >>= λ view. ok view.ctime

  unfoldable pub active_mtime : Result Timestamp
  unfolding active_view
  active_mtime = active_view entry mode >>= λ view. ok view.mtime

  unfoldable pub active_link_count : Result ℕ
  unfolding active_view
  active_link_count =
      active_view entry mode >>= λ view. or_missing (codes "link count") entry.path view.link_count

  unfoldable pub active_birth_time : Result (Option Timestamp)
  unfolding active_view
  active_birth_time = active_view entry mode >>= λ view. ok view.birth_time

  unfoldable pub active_mount_id : Result ℕ
  unfolding active_view
  active_mount_id = active_view entry mode >>= λ view.
      or_missing (codes "filesystem boundary key") entry.path
        (Option.bind view.filesystem_key key_numeric)

  unfoldable pub empty_kind : EntryKind → Result Bool
  unfolding active_size active_view
  empty_kind file = active_size >>= λ size. ok (size == 0)
  empty_kind directory = active_view entry mode >>= λ _. entry.directory_is_empty
  empty_kind _ = ok false

  unfoldable pub active_is_empty : Result Bool
  unfolding active_kind empty_kind
  active_is_empty = active_kind entry mode >>= empty_kind

  -- `active_directory_identity`
  unfoldable pub identity_if_directory : EntryKind → Result (Option FileIdentity)
  unfolding active_identity
  identity_if_directory directory = active_identity entry mode >>= λ identity. ok (some identity)
  identity_if_directory _ = ok none

  unfoldable pub active_directory_identity : Result (Option FileIdentity)
  unfolding physical_is_traversal_link uses_logical_view active_kind identity_if_directory
  active_directory_identity = physical_is_traversal_link entry >>= λ link.
      if link && not (uses_logical_view entry mode)
      then ok none
      else active_kind entry mode >>= identity_if_directory

unfoldable pub access : EntryContext → AccessMode → Result Bool
access entry mode = elim (entry.reader_access mode) [ none ↦ ok false | some answer ↦ ok answer ]

unfoldable pub physical_reparse_tag : EntryContext → Result (Option ℕ)
physical_reparse_tag entry = entry.physical_view >>= λ view. ok view.reparse_tag

-- The target's text, for a symbolic link only.
unfoldable pub physical_link_target : EntryContext → Result (Option Bytes)
unfolding physical_kind is_symlink
physical_link_target entry = do
  kind ← physical_kind entry
  if is_symlink kind then (entry.read_link >>= λ target. ok (some target)) else ok none

abbrev pub unless_followed : Option MetadataView → Result (Option Bytes) → Result (Option Bytes)
unless_followed none other = other
unless_followed (some view) other = ok none

abbrev pub link_target_by : EntryContext → FollowMode → Result (Option Bytes)
unfolding logical_view physical_link_target
link_target_by entry physical = physical_link_target entry
link_target_by entry command_line_only =
    if entry.is_command_line_root
    then unless_followed (logical_view entry) (physical_link_target entry)
    else physical_link_target entry
link_target_by entry logical = unless_followed (logical_view entry) (physical_link_target entry)

unfoldable pub active_link_target : EntryContext → FollowMode → Result (Option Bytes)
unfolding physical_kind is_symlink logical_view physical_link_target
active_link_target entry mode = do
  kind ← physical_kind entry
  if is_symlink kind then link_target_by entry mode else ok none
