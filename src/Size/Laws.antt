-- ===== src/Size/Laws.antt =====
-- What a size test selects, and reading it from an argument (src/size.rs).
use rushfind.Prelude.{
  ◌^◌, none, ltb, if◌then◌else◌, false, is_empty, Option, ℕ, ◌+◌, ◌*◌, ◌<◌, ◌≤◌, true, [], ◌∷◌,
  ◌++◌, some, ◌≡◌, ◌↔◌, refl, Bytes, all, arith,
}
use rushfind.Std.Int.{is_digit}
use rushfind.Numeric.Comparison.{of_kind, ComparisonKind, NumericComparison}
use rushfind.Size.Matcher.{
  invalid_size_argument, unit_at_end, parse_size_comparison, parse_size_argument, SizeUnit, bytes,
  words2, blocks512, kib, mib, gib, unit_bytes, matches, unit_of, last, init,
}
use rushfind.Numeric.Laws.{split_sign-sign, sign}
use rushfind.Std.Digits.{from_str_radix_lem, value}
use rushfind.Diagnostics.{err, ok}

-- A size in bytes against a count of units of `u` bytes, with no rounding in it.
abbrev pub Selects : NumericComparison → ℕ → ℕ → Type 0
Selects (NumericComparison.exactly n) u size = (size ≤ n * u) × (n * u < size + u)
Selects (NumericComparison.less_than n) u size = size + u ≤ n * u
Selects (NumericComparison.greater_than n) u size = n * u < size

-- A size is counted in whole units, rounded up: `-size N` selects the sizes of more than N - 1 and at
-- most N units, `-size -N` those of at most N - 1, and `-size +N` those of more than N, for all units.
pub matches_iff :
    (comparison : NumericComparison) (unit : SizeUnit) (size : ℕ)
    → (matches (record { comparison = comparison; unit = unit }) size ≡ true)
      ↔ Selects comparison (unit_bytes unit) size
unfolding matches
matches_iff (NumericComparison.exactly n) unit size = by_unit unit
  where
    by_unit :
        (u : SizeUnit)
        → (matches (record { comparison = NumericComparison.exactly n; unit = u }) size ≡ true)
          ↔ Selects (NumericComparison.exactly n) (unit_bytes u) size
    by_unit bytes = ground arith
    by_unit _ = ground arith
matches_iff (NumericComparison.less_than n) unit size = by_unit unit
  where
    by_unit :
        (u : SizeUnit)
        → (matches (record { comparison = NumericComparison.less_than n; unit = u }) size ≡ true)
          ↔ Selects (NumericComparison.less_than n) (unit_bytes u) size
    by_unit bytes = ground arith
    by_unit _ = ground arith
matches_iff (NumericComparison.greater_than n) unit size = by_unit unit
  where
    by_unit :
        (u : SizeUnit)
        → (matches (record { comparison = NumericComparison.greater_than n; unit = u }) size ≡ true)
          ↔ Selects (NumericComparison.greater_than n) (unit_bytes u) size
    by_unit bytes = ground arith
    by_unit _ = ground arith

-- The letter of a unit.
abbrev pub suffix : SizeUnit → ℕ
suffix bytes = b'c'
suffix words2 = b'w'
suffix blocks512 = b'b'
suffix kib = b'k'
suffix mib = b'M'
suffix gib = b'G'

last-append : (xs : Bytes) (c : ℕ) → last (xs ++ c ∷ []) ≡ some c
last-append [] c = refl
last-append (x ∷ []) c = refl
last-append (x ∷ y ∷ xs) c = last-append (y ∷ xs) c

init-append : (xs : Bytes) (c : ℕ) → init (xs ++ c ∷ []) ≡ xs
init-append [] c = refl
init-append (x ∷ []) c = refl
init-append (x ∷ y ∷ xs) c = rw (init-append (y ∷ xs) c)

unit_of-suffix : (unit : SizeUnit) → unit_of (suffix unit) ≡ some (unit, true)
unfolding unit_of
unit_of-suffix bytes = refl
unit_of-suffix _ = refl

last-digits :
    (c : ℕ) (digits : Bytes)
    → all (is_digit 10) (c ∷ digits) ≡ true
    → (d : ℕ) × (last (c ∷ digits) ≡ some d) × (is_digit 10 d ≡ true)
last-digits c [] d = (c, refl, ground arith)
last-digits c (e ∷ digits) d = last-digits e digits (ground arith)

-- The text of a size argument: sign, digits, and a unit's letter or none.
abbrev pub written : ComparisonKind → Bytes → Option SizeUnit → Bytes
written kind digits none = sign kind ++ digits
written kind digits (some unit) = (sign kind ++ digits) ++ suffix unit ∷ []

abbrev pub unit_or_blocks : Option SizeUnit → SizeUnit
unit_or_blocks none = blocks512
unit_or_blocks (some unit) = unit

parse_size_comparison-sign :
    (raw digits : Bytes) (kind : ComparisonKind)
    → is_empty digits ≡ false
    → all (is_digit 10) digits ≡ true
    → parse_size_comparison (sign kind ++ digits) raw ≡ (
        if ltb (value 10 digits) (2 ^ 64)
        then ok (of_kind kind (value 10 digits))
        else err (invalid_size_argument raw))
unfolding parse_size_comparison
parse_size_comparison-sign raw digits kind e d = ground (
  arith,
  split_sign-sign kind digits d,
  from_str_radix_lem 10 (omega arith) (2 ^ 64) digits (omega arith) (omega arith) e d,
)

-- The last byte of digits behind a sign is a digit, so the unit is the default one.
unit_at_end-digits :
    (kind : ComparisonKind) (digits : Bytes)
    → is_empty digits ≡ false
    → all (is_digit 10) digits ≡ true
    → unit_at_end (last (sign kind ++ digits)) ≡ some (blocks512, false)
unfolding unit_of is_digit
unit_at_end-digits kind [] e d = cc
unit_at_end-digits kind (c ∷ digits) e d = by_kind kind
  where
    unit_digit :
        (o : Option ℕ)
        → (x : ℕ) × (o ≡ some x) × (is_digit 10 x ≡ true)
        → unit_at_end o ≡ some (blocks512, false)
    unit_digit o (x, p, q) = rw p (ground arith)

    by_kind :
        (k : ComparisonKind) → unit_at_end (last (sign k ++ c ∷ digits)) ≡ some (blocks512, false)
    by_kind ComparisonKind.exactly = unit_digit _ (last-digits c digits d)
    by_kind ComparisonKind.less_than = unit_digit _ (last-digits c digits d)
    by_kind ComparisonKind.greater_than = unit_digit _ (last-digits c digits d)

-- A sign or none, one decimal digit or more and a unit letter or none read as the comparison of that
-- kind in that unit, 512-byte blocks by default, if the number fits 64 bits; else they are refused.
pub parse_size_argument-written :
    (kind : ComparisonKind) (digits : Bytes) (unit : Option SizeUnit)
    → is_empty digits ≡ false
    → all (is_digit 10) digits ≡ true
    → parse_size_argument (written kind digits unit) ≡ (
        if ltb (value 10 digits) (2 ^ 64)
        then ok (record { comparison = of_kind kind (value 10 digits); unit = unit_or_blocks unit })
        else err (invalid_size_argument (written kind digits unit)))
unfolding parse_size_argument
parse_size_argument-written kind digits none e d =
    rw (unit_at_end-digits kind digits e d)
      (ground (arith, parse_size_comparison-sign (sign kind ++ digits) digits kind e d))
parse_size_argument-written kind digits (some unit) e d =
    rw (last-append, unit_of-suffix, init-append)
      (ground (arith, parse_size_comparison-sign (written kind digits (some unit)) digits kind e d))
