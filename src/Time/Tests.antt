-- ===== src/Time/Tests.antt =====
-- Amounts of time that the properties are applied to.
use rushfind.Numeric.Comparison.{ComparisonKind}
use rushfind.Time.Amount.{normalized, parse_time_comparison, of_kind}
use rushfind.Time.AmountLaws.{parse_time_comparison-written}
use rushfind.Time.Types.{TimeAmount}
use rushfind.Diagnostics.{ok}
use rushfind.Prelude.{arith, refl, ◌^◌, ◌*◌, ◌≡◌, ◌++◌, some, codes}
use rushfind.Std.Int.{is_digit}
use rushfind.Std.Digits.{value}

parse_time_comparison-written_example :
    (amount : TimeAmount) × (parse_time_comparison (codes "-mtime") (codes "-" ++ codes "01.50")
      ≡ ok (of_kind ComparisonKind.less_than amount))
    × (value 10 amount.digits * 10 ^ 2 ≡ value 10 (codes "0150") * 10 ^ amount.scale)
unfolding is_digit
parse_time_comparison-written_example =
    parse_time_comparison-written (codes "-mtime") (codes "01") (some (codes "50"))
      ComparisonKind.less_than refl refl (omega arith)

normalized_example :
    normalized (codes "01") (some (codes "50")) ≡ record { digits = codes "15"; scale = 1 }
unfolding normalized
normalized_example = refl
