-- ===== src/FileFlags/Matcher.antt =====
-- The file flags matcher (src/file_flags.rs).
use Prim.Native.Nat.{bit_and, bit_or}
use mathlib.Core.List.{foldl}
use rushfind.Prelude.{ℕ, Bool, false, not, List, Option, none, some, ◌==◌, if◌then◌else◌}
use rushfind.Prelude

pub data FlagMatchMode : Type 0 where
  exact all any : FlagMatchMode

pub record FlagCondition : Type 0 where
  pub bit : ℕ
  pub must_be_set : Bool

pub record FileFlagsMatcher : Type 0 where
  pub universe_mask : ℕ
  pub mode : FlagMatchMode
  pub conditions : List FlagCondition

-- `((bits & condition.bit) != 0) == condition.must_be_set`
unfoldable pub condition_holds : ℕ → FlagCondition → Bool
condition_holds bits condition =
    if condition.must_be_set
    then not (bit_and bits condition.bit == 0)
    else bit_and bits condition.bit == 0

-- The filter and the fold over the conditions that must be set.
unfoldable pub expected_bits : List FlagCondition → ℕ
expected_bits =
    foldl (λ mask condition. if condition.must_be_set then bit_or mask condition.bit else mask) 0

abbrev pub matches_mode : FileFlagsMatcher → ℕ → FlagMatchMode → Bool
matches_mode matcher bits exact =
    bit_and bits matcher.universe_mask == expected_bits matcher.conditions
matches_mode matcher bits all = Prelude.all (condition_holds bits) matcher.conditions
matches_mode matcher bits any = Prelude.any (condition_holds bits) matcher.conditions

unfoldable pub matches : FileFlagsMatcher → Option ℕ → Bool
unfolding condition_holds expected_bits
matches matcher none = false
matches matcher (some bits) = matches_mode matcher bits matcher.mode
