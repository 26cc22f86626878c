-- ===== src/Numeric/Laws.antt =====
-- Reading a numeric argument, and what its comparison selects (src/numeric.rs).
use rushfind.Prelude.{
  refl, ◌^◌, true, false, [], ◌∷◌, ◌++◌, ◌≡◌, ltb, if◌then◌else◌, Bytes, all, is_empty, arith,
}
use rushfind.Diagnostics.{ok, err}
use rushfind.Std.Int.{is_digit}
use rushfind.Std.Digits.{value, from_str_radix_lem}
use rushfind.Numeric.Comparison.{
  ComparisonKind, of_kind, split_sign, parse_numeric_argument, invalid_numeric_argument,
}

-- The sign that stands for a kind.
abbrev pub sign : ComparisonKind → Bytes
sign ComparisonKind.exactly = []
sign ComparisonKind.less_than = b'-' ∷ []
sign ComparisonKind.greater_than = b'+' ∷ []

pub split_sign-sign :
    (kind : ComparisonKind) (digits : Bytes)
    → all (is_digit 10) digits ≡ true
    → split_sign (sign kind ++ digits) ≡ (kind, digits)
unfolding is_digit
split_sign-sign ComparisonKind.exactly [] d = refl
split_sign-sign ComparisonKind.exactly (c ∷ digits) d = ground arith
split_sign-sign ComparisonKind.less_than digits d = refl
split_sign-sign ComparisonKind.greater_than digits d = refl

-- An optional sign and one decimal digit or more read as the comparison of that kind with the number
-- that the digits write, if that number fits 64 bits, and are refused otherwise.
pub parse_numeric_argument-sign :
    (flag digits : Bytes) (kind : ComparisonKind)
    → is_empty digits ≡ false
    → all (is_digit 10) digits ≡ true
    → parse_numeric_argument flag (sign kind ++ digits) ≡ (
        if ltb (value 10 digits) (2 ^ 64)
        then ok (of_kind kind (value 10 digits))
        else err (invalid_numeric_argument flag (sign kind ++ digits)))
unfolding parse_numeric_argument
parse_numeric_argument-sign flag digits kind e d = ground (
  arith,
  split_sign-sign kind digits d,
  from_str_radix_lem 10 (omega arith) (2 ^ 64) digits (omega arith) (omega arith) e d,
)
