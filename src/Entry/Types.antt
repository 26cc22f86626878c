-- ===== src/Entry/Types.antt =====
-- The kinds, identities and metadata of entries (src/entry.rs, src/follow.rs, src/identity.rs,
-- src/platform/filesystem.rs).
use rushfind.Prelude.{
  true, false, ◌==◌, if◌then◌else◌, ℕ, Bool, Bytes, Option, some, none, ◌%◌, ◌^◌,
}
use rushfind.Time.Types.{Timestamp}

pub data FollowMode : Type 0 where
  physical command_line_only logical : FollowMode

pub data EntryKind : Type 0 where
  file directory symlink block character fifo socket unknown : EntryKind

pub data AccessMode : Type 0 where
  read write execute : AccessMode

pub data FileIdentity : Type 0 where
  unix : ℕ → ℕ → FileIdentity
  windows : ℕ → ℕ → FileIdentity

unfoldable pub device_number : FileIdentity → ℕ
device_number (FileIdentity.unix dev ino) = dev
device_number (FileIdentity.windows volume_serial file_id) = volume_serial

-- `file_id as u64` keeps the low 64 bits.
unfoldable pub inode_number : FileIdentity → ℕ
inode_number (FileIdentity.unix dev ino) = ino
inode_number (FileIdentity.windows volume_serial file_id) = file_id % 2 ^ 64

pub data PrincipalId : Type 0 where
  numeric : ℕ → PrincipalId
  sid : Bytes → PrincipalId

unfoldable pub principal_numeric : PrincipalId → Option ℕ
principal_numeric (PrincipalId.numeric value) = some value
principal_numeric (PrincipalId.sid text) = none

pub data ReparseTypeClass : Type 0 where
  symbolic mount_point app_exec_link wsl_symlink af_unix cloud proj_fs other : ReparseTypeClass

pub data FilesystemKey : Type 0 where
  numeric : ℕ → FilesystemKey
  text : Bytes → FilesystemKey

-- `key.numeric()`
abbrev pub key_numeric : FilesystemKey → Option ℕ
key_numeric (FilesystemKey.numeric value) = some value
key_numeric (FilesystemKey.text _) = none

-- One answer of the platform.
pub record MetadataView : Type 0 where
  pub kind : EntryKind
  pub identity : Option FileIdentity
  pub size : ℕ
  pub owner : Option PrincipalId
  pub group : Option PrincipalId
  pub mode_bits : Option ℕ
  pub flag_bits : Option ℕ
  pub reparse_tag : Option ℕ
  pub link_count : Option ℕ
  pub atime : Timestamp
  pub ctime : Timestamp
  pub mtime : Timestamp
  pub birth_time : Option Timestamp
  pub filesystem_key : Option FilesystemKey

unfoldable pub is_symlink : EntryKind → Bool
is_symlink symlink = true
is_symlink _ = false

abbrev is_mount_point_tag : Option ℕ → Bool
is_mount_point_tag none = false
is_mount_point_tag (some tag) = tag == 0xA0000003

unfoldable pub is_traversal_link : MetadataView → Bool
unfolding is_symlink
is_traversal_link view = if is_symlink view.kind then true else is_mount_point_tag view.reparse_tag
