-- ===== src/Size/Matcher.antt =====
-- The size matcher, and reading it from an argument (src/size.rs).
use rushfind.Prelude.{
  ℕ, ◌+◌, ◌-◌, ◌*◌, ◌/◌, Bool, true, false, not, ◌&&◌, ◌||◌, [], ◌∷◌, Option, none, some, ◌==◌, leb,
  if◌then◌else◌, Bytes, all, is_empty,
}
use rushfind.Diagnostics.{
  Diagnostic, Result, ok, err, ◌>>=◌, parse, invalid_size_argument as invalid,
}
use rushfind.Std.Int.{is_digit}
use rushfind.Numeric.Comparison
use rushfind.Numeric.Comparison.{NumericComparison, split_sign, of_kind, parse_u64_or}

pub data SizeUnit : Type 0 where
  bytes words2 blocks512 kib mib gib : SizeUnit

unfoldable pub unit_bytes : SizeUnit → ℕ
unit_bytes bytes = 1
unit_bytes words2 = 2
unit_bytes blocks512 = 512
unit_bytes kib = 1024
unit_bytes mib = 1024 * 1024
unit_bytes gib = 1024 * 1024 * 1024

pub record SizeMatcher : Type 0 where
  pub comparison : NumericComparison
  pub unit : SizeUnit

unfoldable pub rounded_up_units : ℕ → ℕ → ℕ
rounded_up_units size_bytes unit_bytes =
    if size_bytes == 0 then 0 else 1 + (size_bytes - 1) / unit_bytes

unfoldable pub matches : SizeMatcher → ℕ → Bool
unfolding rounded_up_units unit_bytes Comparison.matches
matches matcher size_bytes =
    Comparison.matches matcher.comparison (rounded_up_units size_bytes (unit_bytes matcher.unit))

unfoldable pub invalid_size_argument : Bytes → Diagnostic
invalid_size_argument raw = parse (invalid raw)

-- The `match` on the last byte: the unit, and whether that byte belongs to it.
unfoldable pub unit_of : ℕ → Option (SizeUnit × Bool)
unit_of c =
    if c == b'c'
    then some (bytes, true)
    else if c == b'w'
    then some (words2, true)
    else if c == b'b'
    then some (blocks512, true)
    else if c == b'k'
    then some (kib, true)
    else if c == b'M'
    then some (mib, true)
    else if c == b'G'
    then some (gib, true)
    else if leb b'0' c && leb c b'9' || c == b'+' || c == b'-'
    then some (blocks512, false)
    else none

abbrev pub last : Bytes → Option ℕ
last [] = none
last (c ∷ []) = some c
last (c ∷ d ∷ rest) = last (d ∷ rest)

-- `&bytes[..bytes.len() - 1]`
abbrev pub init : Bytes → Bytes
init [] = []
init (c ∷ []) = []
init (c ∷ d ∷ rest) = c ∷ init (d ∷ rest)

unfoldable pub parse_size_comparison : Bytes → Bytes → Result NumericComparison
parse_size_comparison numeric_bytes raw =
    let (kind, digits) = split_sign numeric_bytes in
    if is_empty digits || not (all (is_digit 10) digits)
    then err (invalid_size_argument raw)
    else do parsed ← parse_u64_or (invalid_size_argument raw) digits; ok (of_kind kind parsed)

abbrev pub with_unit : Bytes → Option (SizeUnit × Bool) → Result SizeMatcher
with_unit raw none = err (invalid_size_argument raw)
with_unit raw (some (unit, suffix)) = do
  comparison ← parse_size_comparison (if suffix then init raw else raw) raw
  ok (record { comparison = comparison; unit = unit })

abbrev pub unit_at_end : Option ℕ → Option (SizeUnit × Bool)
unit_at_end none = none
unit_at_end (some c) = unit_of c

unfoldable pub parse_size_argument : Bytes → Result SizeMatcher
parse_size_argument raw = with_unit raw (unit_at_end (last raw))
