-- ===== src/Time/Amount.antt =====
-- Reading the amount of a time test (src/time.rs).
-- The source reads the digits as UTF-8 first; bytes that are not UTF-8 have one that is no digit, and
-- are refused with the same diagnostic, so the bytes are read as they are.
use rushfind.Numeric.Comparison.{invalid_numeric_argument}
use rushfind.Std.Int.{is_digit}
use rushfind.Size.Matcher.{last, init}
use rushfind.Prelude.{
  ◌^◌, all, ◌%◌, length, ◌&&◌, zero, suc, ◌==◌, some, is_empty, ◌++◌, not, true, false, none,
  if◌then◌else◌, [], ◌∷◌, Bool, ℕ, Bytes, Option,
}
use rushfind.Numeric.Comparison.{split_sign, ComparisonKind}
use rushfind.Diagnostics.{Diagnostic, Result, err, ok, parse, invalid_time_amount, ◌>>=◌}
use rushfind.Time.Types.{TimeComparison, TimeAmount}

-- `str::split_once('.')`
abbrev pub split_point : Bytes → Bytes × Option Bytes
split_point [] = ([], none)
split_point (c ∷ rest) =
    let (whole, frac) = split_point rest in if c == b'.' then ([], some rest) else (c ∷ whole, frac)

abbrev pub ends_in_zero : Bytes → Bool
ends_in_zero digits = elim (last digits) [ none ↦ false | some c ↦ c == b'0' ]

-- The first `while`: zeros at the end, behind the point.
unfoldable pub drop_trailing : ℕ → Bytes → TimeAmount
drop_trailing zero digits = record { digits = digits; scale = 0 }
drop_trailing (suc scale) digits =
    let dropped = drop_trailing scale (init digits) in
    if ends_in_zero digits then dropped else record { digits = digits; scale = suc scale }

-- The second `while`: zeros at the front.
unfoldable pub drop_leading : Bytes → Bytes
drop_leading [] = []
drop_leading (c ∷ []) = c ∷ []
drop_leading (c ∷ d ∷ rest) =
    let dropped = drop_leading (d ∷ rest) in if c == b'0' then dropped else c ∷ d ∷ rest

abbrev pub or_zero : Bytes → Bytes
or_zero digits = if is_empty digits then b'0' ∷ [] else digits

-- `frac.len() as u32`
abbrev pub frac_len : Option Bytes → ℕ
frac_len none = 0
frac_len (some frac) = length frac % 2 ^ 32

abbrev pub frac_digits : Option Bytes → Bytes
frac_digits none = []
frac_digits (some frac) = frac

abbrev pub is_digits : Bytes → Bool
is_digits raw = not (is_empty raw) && all (is_digit 10) raw

abbrev pub is_frac : Option Bytes → Bool
is_frac none = true
is_frac (some frac) = is_digits frac

-- What follows the two checks.
unfoldable pub normalized : Bytes → Option Bytes → TimeAmount
unfolding drop_trailing drop_leading
normalized whole frac =
    let amount = drop_trailing (frac_len frac) (whole ++ frac_digits frac) in
    record { digits = or_zero (drop_leading amount.digits); scale = amount.scale }

-- `TimeAmount::from_str`
unfoldable pub from_str : Bytes → Result TimeAmount
unfolding normalized
from_str raw =
    let (whole, frac) = split_point raw in
    if not (is_digits whole)
    then err (parse invalid_time_amount)
    else if not (is_frac frac)
    then err (parse invalid_time_amount)
    else ok (normalized whole frac)

-- The `match` on the kind at the end.
abbrev pub of_kind : ComparisonKind → TimeAmount → TimeComparison
of_kind ComparisonKind.exactly n = TimeComparison.exactly n
of_kind ComparisonKind.less_than n = TimeComparison.less_than n
of_kind ComparisonKind.greater_than n = TimeComparison.greater_than n

-- `map_err`
abbrev pub amount_or : Diagnostic → Result TimeAmount → Result TimeAmount
amount_or error (ok amount) = ok amount
amount_or error (err e) = err error

unfoldable pub parse_time_comparison : Bytes → Bytes → Result TimeComparison
unfolding from_str
parse_time_comparison flag value =
    let (kind, digits) = split_sign value in
    amount_or (invalid_numeric_argument flag value) (from_str digits) >>= λ parsed.
    ok (of_kind kind parsed)

-- `validate_time_argument`
unfoldable pub validate_time_argument : Bytes → Bytes → Result (Unit {0})
unfolding parse_time_comparison
validate_time_argument flag value = parse_time_comparison flag value >>= λ _. ok tt
