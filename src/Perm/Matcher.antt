-- ===== src/Perm/Matcher.antt =====
-- The permission matcher (src/perm.rs).
use Prim.Native.Nat.{bit_and}
use rushfind.Prelude.{ℕ, Bool, not, ◌||◌, ◌==◌}

pub data PermMatcher : Type 0 where
  exact all any : ℕ → PermMatcher

unfoldable pub matches : PermMatcher → ℕ → Bool
matches (exact expected) actual_mode = expected == bit_and actual_mode 0o7777
matches (all required) actual_mode = bit_and (bit_and actual_mode 0o7777) required == required
matches (any required) actual_mode =
    required == 0 || not (bit_and (bit_and actual_mode 0o7777) required == 0)
