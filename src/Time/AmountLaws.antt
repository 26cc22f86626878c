-- ===== src/Time/AmountLaws.antt =====
-- What an amount of time that was read stands for (src/time.rs).
use native.Mathlib.Nat.{pow-suc}
use rushfind.Time.Amount.{is_frac, is_digits, from_str, parse_time_comparison, of_kind}
use rushfind.Numeric.Laws.{sign}
use rushfind.Prelude.{
  subst, ◌<◌, length, inr, inl, none, ◌++◌, false, all, some, ◌⊎◌, is_empty, Option, ◌-◌, zero,
  refl, [], ◌+◌, if_known, arith, suc, ◌^◌, true, ◌∷◌, ◌≡◌, ◌*◌, Bytes, ℕ,
}
use rushfind.Std.Digits.{value, value_from}
use rushfind.Time.Types.{TimeAmount}
use rushfind.Time.Amount.{
  split_point, drop_trailing, drop_leading, normalized, ends_in_zero, or_zero, frac_len,
  frac_digits,
}
use rushfind.Size.Matcher.{init}
use rushfind.Std.Int.{is_digit}
use rushfind.Numeric.Comparison.{split_sign, ComparisonKind}
use rushfind.Diagnostics.{ok}

-- A zero at the end multiplies by ten.
value-init :
    (acc : ℕ) (digits : Bytes)
    → ends_in_zero digits ≡ true
    → value_from 10 acc digits ≡ value_from 10 acc (init digits) * 10
value-init acc [] e = cc
value-init acc (c ∷ []) e = grind arith
value-init acc (c ∷ d ∷ rest) e = value-init (acc * 10 + (c - b'0')) (d ∷ rest) e

times_ten : (a b p q : ℕ) → a * p ≡ b * q → a * (p * 10) ≡ (b * 10) * q
times_ten a b p q e = omega (arith, e)

value-drop_trailing :
    (scale : ℕ) (digits : Bytes)
    → value 10 (drop_trailing scale digits).digits * 10 ^ scale
      ≡ value 10 digits * 10 ^ (drop_trailing scale digits).scale
unfolding drop_trailing
value-drop_trailing zero digits = refl
value-drop_trailing (suc scale) digits =
    if_known {A = TimeAmount}
      (λ amount. value 10 amount.digits * 10 ^ suc scale ≡ value 10 digits * 10 ^ amount.scale)
      (ends_in_zero digits) _ _
      (λ e.
        rw (pow-suc 10 scale, value-init 0 digits e)
          (times_ten _ _ _ _ (value-drop_trailing scale (init digits))))
      λ _. refl

value-drop_leading : (digits : Bytes) → value 10 (drop_leading digits) ≡ value 10 digits
unfolding drop_leading
value-drop_leading [] = refl
value-drop_leading (c ∷ []) = refl
value-drop_leading (c ∷ d ∷ rest) = ground (arith, value-drop_leading (d ∷ rest))

-- No zero is left at the end behind the point.
ends_in_zero-drop_trailing :
    (scale : ℕ) (digits : Bytes)
    → ((drop_trailing scale digits).scale ≡ 0)
      ⊎ (ends_in_zero (drop_trailing scale digits).digits ≡ false)
unfolding drop_trailing
ends_in_zero-drop_trailing zero digits = inl refl
ends_in_zero-drop_trailing (suc scale) digits =
    if_known {A = TimeAmount} (λ amount. (amount.scale ≡ 0) ⊎ (ends_in_zero amount.digits ≡ false))
      (ends_in_zero digits) _ _ (λ _. ends_in_zero-drop_trailing scale (init digits)) λ e. inr e

value-or_zero : (digits : Bytes) → value 10 (or_zero digits) ≡ value 10 digits
value-or_zero [] = refl
value-or_zero (c ∷ digits) = refl

is_empty-or_zero : (digits : Bytes) → is_empty (or_zero digits) ≡ false
is_empty-or_zero [] = refl
is_empty-or_zero (c ∷ digits) = refl

pub normalized-value :
    (whole : Bytes) (frac : Option Bytes)
    → (value 10 (normalized whole frac).digits * 10 ^ frac_len frac
        ≡ value 10 (whole ++ frac_digits frac) * 10 ^ (normalized whole frac).scale)
      × (is_empty (normalized whole frac).digits ≡ false)
unfolding normalized
normalized-value whole frac =
    let amount : TimeAmount = drop_trailing (frac_len frac) (whole ++ frac_digits frac) in
    (
      rw (value-or_zero (drop_leading amount.digits), value-drop_leading amount.digits)
          (value-drop_trailing (frac_len frac) (whole ++ frac_digits frac)),
      is_empty-or_zero (drop_leading amount.digits),
    )

-- Digits with a point among them, or none, read as the number they write.
split_point-join :
    (whole frac : Bytes)
    → all (is_digit 10) whole ≡ true
    → split_point (whole ++ b'.' ∷ frac) ≡ (whole, some frac)
unfolding is_digit
split_point-join [] frac d = refl
split_point-join (c ∷ whole) frac d = grind (arith, split_point-join whole frac)

split_point-whole :
    (whole : Bytes) → all (is_digit 10) whole ≡ true → split_point whole ≡ (whole, none)
unfolding is_digit
split_point-whole [] d = refl
split_point-whole (c ∷ whole) d = grind (arith, split_point-whole whole)

-- An amount as it is written.
abbrev pub written : Bytes → Option Bytes → Bytes
written whole none = whole
written whole (some frac) = whole ++ b'.' ∷ frac

split_sign-digit :
    (kind : ComparisonKind) (c : ℕ) (rest : Bytes)
    → is_digit 10 c ≡ true
    → split_sign (sign kind ++ c ∷ rest) ≡ (kind, c ∷ rest)
unfolding is_digit
split_sign-digit ComparisonKind.exactly c rest d = grind arith
split_sign-digit ComparisonKind.less_than c rest d = refl
split_sign-digit ComparisonKind.greater_than c rest d = refl

split_sign-written :
    (kind : ComparisonKind) (whole : Bytes) (frac : Option Bytes)
    → is_digits whole ≡ true
    → split_sign (sign kind ++ written whole frac) ≡ (kind, written whole frac)
split_sign-written kind [] frac d = cc
split_sign-written kind (c ∷ whole) none d = split_sign-digit kind c whole (grind arith)
split_sign-written kind (c ∷ whole) (some frac) d =
    split_sign-digit kind c (whole ++ b'.' ∷ frac) (grind arith)

from_str-written :
    (whole : Bytes) (frac : Option Bytes)
    → is_digits whole ≡ true
    → is_frac frac ≡ true
    → from_str (written whole frac) ≡ ok (normalized whole frac)
unfolding from_str
from_str-written whole none d f = grind (arith, split_point-whole whole)
from_str-written whole (some frac) d f = grind (arith, split_point-join whole frac)

frac_len-length :
    (frac : Option Bytes)
    → length (frac_digits frac) < 2 ^ 32
    → frac_len frac ≡ length (frac_digits frac)
frac_len-length none short = refl
frac_len-length (some frac) short = omega (arith, short)

-- An optional sign, one digit or more and, where there is a point, one digit or more behind it (less than
-- 2^32 of them), read as the comparison of that kind with an amount of digits and a scale that stands for
-- the number written: its digits over ten to its scale are the digits that were written over ten to the
-- number of those behind the point.
pub parse_time_comparison-written :
    (flag whole : Bytes) (frac : Option Bytes) (kind : ComparisonKind)
    → is_digits whole ≡ true
    → is_frac frac ≡ true
    → length (frac_digits frac) < 2 ^ 32
    → (amount : TimeAmount) × (parse_time_comparison flag (sign kind ++ written whole frac)
        ≡ ok (of_kind kind amount))
      × (value 10 amount.digits * 10 ^ length (frac_digits frac)
          ≡ value 10 (whole ++ frac_digits frac) * 10 ^ amount.scale)
unfolding parse_time_comparison
parse_time_comparison-written flag whole frac kind d f short = (
  normalized whole frac,
  rw (split_sign-written kind whole frac d, from_str-written whole frac d f) refl,
  subst
      (λ n.
        value 10 (normalized whole frac).digits * 10 ^ n
        ≡ value 10 (whole ++ frac_digits frac) * 10 ^ (normalized whole frac).scale)
      (frac_len-length frac short) (normalized-value whole frac).0,
)
