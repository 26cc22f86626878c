-- ===== src/Numeric/Comparison.antt =====
-- The comparison, and reading it from an argument (src/numeric.rs).
-- The source reads the digits from a lossy UTF-8 rendering; a byte that is no ASCII digit is refused
-- before and after that, so the bytes are read as they are.
use rushfind.Prelude.{ℕ, Bool, [], ◌∷◌, none, some, ◌==◌, ltb, if◌then◌else◌, Bytes, is_empty}
use rushfind.Diagnostics.{
  Diagnostic, Result, ok, err, ◌>>=◌, parse, invalid_numeric_argument as invalid,
}
use rushfind.Std.Int.{parse_u64}

pub data NumericComparison : Type 0 where
  exactly : ℕ → NumericComparison
  less_than : ℕ → NumericComparison
  greater_than : ℕ → NumericComparison

unfoldable pub matches : NumericComparison → ℕ → Bool
matches (exactly expected) actual = actual == expected
matches (less_than expected) actual = ltb actual expected
matches (greater_than expected) actual = ltb expected actual

pub data ComparisonKind : Type 0 where
  exactly less_than greater_than : ComparisonKind

-- The `match` on a leading sign.
abbrev pub split_sign : Bytes → ComparisonKind × Bytes
split_sign [] = (ComparisonKind.exactly, [])
split_sign (c ∷ rest) =
    if c == b'+'
    then (ComparisonKind.greater_than, rest)
    else if c == b'-'
    then (ComparisonKind.less_than, rest)
    else (ComparisonKind.exactly, c ∷ rest)

-- The `match` on the kind at the end.
abbrev pub of_kind : ComparisonKind → ℕ → NumericComparison
of_kind ComparisonKind.exactly n = NumericComparison.exactly n
of_kind ComparisonKind.less_than n = NumericComparison.less_than n
of_kind ComparisonKind.greater_than n = NumericComparison.greater_than n

-- `parse::<u64>` with its error mapped
abbrev pub parse_u64_or : Diagnostic → Bytes → Result ℕ
parse_u64_or error digits = elim (parse_u64 digits) [ none ↦ err error | some parsed ↦ ok parsed ]

unfoldable pub invalid_numeric_argument : Bytes → Bytes → Diagnostic
invalid_numeric_argument flag value = parse (invalid flag value)

unfoldable pub parse_numeric_argument : Bytes → Bytes → Result NumericComparison
parse_numeric_argument flag value =
    let (kind, digits) = split_sign value in
    if is_empty digits then err (invalid_numeric_argument flag value) else do
      parsed ← parse_u64_or (invalid_numeric_argument flag value) digits
      ok (of_kind kind parsed)

unfoldable pub validate_numeric_argument : Bytes → Bytes → Result (Unit {0})
unfolding parse_numeric_argument
validate_numeric_argument flag value = parse_numeric_argument flag value >>= λ _. ok tt
