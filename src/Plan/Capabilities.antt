-- ===== src/Plan/Capabilities.antt =====
-- What the platform can do (src/platform/capabilities.rs).
use rushfind.Prelude.{false, true, Bool, Bytes}

pub data SupportLevel : Type 0 where
  exact : SupportLevel
  approximate unsupported : Bytes → SupportLevel

pub data PlatformFeature : Type 0 where
  fs_type same_file_system birth_time file_flags reparse_type named_ownership : PlatformFeature
  numeric_ownership windows_ownership_predicates access_predicates : PlatformFeature
  messages_locale case_insensitive_glob mode_bits : PlatformFeature

pub data OutputContract : Type 0 where
  posix windows_native : OutputContract

-- The levels, one for each feature, as `support` reads them.
pub record PlatformCapabilities : Type 0 where
  pub support : PlatformFeature → SupportLevel
  pub output_contract : OutputContract

unfoldable pub uses_windows_native_output_contract : PlatformCapabilities → Bool
uses_windows_native_output_contract capabilities = elim capabilities.output_contract [
  | OutputContract.windows_native ↦ true
  | _ ↦ false
]
