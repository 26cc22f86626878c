-- ===== src/Size/Tests.antt =====
-- Size tests and their arguments (src/size.rs, src/numeric.rs).
use rushfind.Prelude.{◌^◌, ltb, if◌then◌else◌, ◌++◌, true, ◌≡◌, refl, ◌↔◌, codes, some}
use rushfind.Std.Int.{push_digit, digits_from, from_str_radix, is_digit}
use rushfind.Size.Matcher.{
  unit_of, unit_bytes, mib, kib, matches, parse_size_comparison, parse_size_argument,
}
use rushfind.Size.Laws.{parse_size_argument-written, unit_or_blocks, matches_iff, Selects, written}
use rushfind.Numeric.Comparison.{of_kind, ComparisonKind, NumericComparison, parse_numeric_argument}
use rushfind.Numeric.Laws.{parse_numeric_argument-sign, sign}
use rushfind.Std.Digits.{value}
use rushfind.Diagnostics.{err, ok}
use rushfind.Size.Matcher.{invalid_size_argument}
use rushfind.Numeric.Comparison.{invalid_numeric_argument}

reads_kib :
    parse_size_argument (codes "+2k")
    ≡ ok (record { comparison = NumericComparison.greater_than 2; unit = kib })
unfolding parse_size_argument parse_size_comparison from_str_radix digits_from push_digit is_digit
    unit_of
reads_kib = refl

rounds_up : matches (record { comparison = NumericComparison.exactly 1; unit = kib }) 1 ≡ true
unfolding matches
rounds_up = refl

matches_iff_example :
    (matches (record { comparison = NumericComparison.exactly 2; unit = kib }) 1500 ≡ true)
    ↔ Selects (NumericComparison.exactly 2) (unit_bytes kib) 1500
matches_iff_example = matches_iff (NumericComparison.exactly 2) kib 1500

parse_size_argument-written_example :
    parse_size_argument (written ComparisonKind.less_than (codes "12") (some mib)) ≡ (
      if ltb (value 10 (codes "12")) (2 ^ 64)
      then ok (record {
        comparison = of_kind ComparisonKind.less_than (value 10 (codes "12"));
        unit = unit_or_blocks (some mib);
      })
      else err (invalid_size_argument (written ComparisonKind.less_than (codes "12") (some mib))))
unfolding is_digit
parse_size_argument-written_example =
    parse_size_argument-written ComparisonKind.less_than (codes "12") (some mib) refl refl

parse_numeric_argument-sign_example :
    parse_numeric_argument (codes "-links") (sign ComparisonKind.greater_than ++ codes "3") ≡ (
      if ltb (value 10 (codes "3")) (2 ^ 64)
      then ok (of_kind ComparisonKind.greater_than (value 10 (codes "3")))
      else err (
          invalid_numeric_argument
            (codes "-links")
            (sign ComparisonKind.greater_than ++ codes "3")))
unfolding is_digit
parse_numeric_argument-sign_example =
    parse_numeric_argument-sign (codes "-links") (codes "3") ComparisonKind.greater_than refl refl
