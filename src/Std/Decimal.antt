-- ===== src/Std/Decimal.antt =====
-- Decimal digits, as `Display` writes an unsigned integer, and reading them back.
use rushfind.Std.Int.{is_digit, from_str_radix}
use rushfind.Std.Digits.{value, value_from, from_str_radix_lem}
use rushfind.Prelude.{
  zero, ◌-◌, ◌%◌, if_cases, refl, ltb, ◌+◌, false, some, true, ◌*◌, ◌&&◌, if◌then◌else◌, arith, ◌∷◌,
  ◌/◌, ◌≡◌, ◌++◌, suc, [], all, ◌<◌, Bool, is_empty, ℕ, Bytes,
}

-- The digits of `n`, of which there are at most as many as the fuel.
unfoldable pub decimal_from : ℕ → ℕ → Bytes
decimal_from zero n = []
decimal_from (suc fuel) n =
    let front = decimal_from fuel (n / 10) in
    if ltb n 10 then (b'0' + n) ∷ [] else front ++ (b'0' + n % 10) ∷ []

-- A number has no more digits than one more than itself.
unfoldable pub decimal : ℕ → Bytes
unfolding decimal_from
decimal n = decimal_from (suc n) n

value_from-append :
    (acc : ℕ) (front back : Bytes)
    → value_from 10 acc (front ++ back) ≡ value_from 10 (value_from 10 acc front) back
value_from-append acc [] back = refl
value_from-append acc (c ∷ front) back = value_from-append (acc * 10 + (c - b'0')) front back

all-append :
    (p : ℕ → Bool) (front back : Bytes) → all p (front ++ back) ≡ (all p front && all p back)
all-append p [] back = refl
all-append p (c ∷ front) back = grind (arith, all-append p front back)

value-decimal_from : (fuel n : ℕ) → n < fuel → value 10 (decimal_from fuel n) ≡ n
unfolding decimal_from
value-decimal_from zero n l = omega (arith, l)
value-decimal_from (suc fuel) n l = ground (
  arith,
  value-decimal_from fuel (n / 10),
  value_from-append 0 (decimal_from fuel (n / 10)) ((b'0' + n % 10) ∷ []),
)

is_digit-decimal_from : (fuel n : ℕ) → all (is_digit 10) (decimal_from fuel n) ≡ true
unfolding decimal_from is_digit
is_digit-decimal_from zero n = refl
is_digit-decimal_from (suc fuel) n = ground (
  arith,
  is_digit-decimal_from fuel (n / 10),
  all-append (is_digit 10) (decimal_from fuel (n / 10)) ((b'0' + n % 10) ∷ []),
)

is_empty-append : (front : Bytes) (c : ℕ) → is_empty (front ++ c ∷ []) ≡ false
is_empty-append [] c = refl
is_empty-append (d ∷ front) c = refl

is_empty-decimal_from : (fuel n : ℕ) → is_empty (decimal_from (suc fuel) n) ≡ false
unfolding decimal_from
is_empty-decimal_from fuel n =
    if_cases {A = Bytes} (λ d. is_empty d ≡ false) (ltb n 10) ((b'0' + n) ∷ [])
      (decimal_from fuel (n / 10) ++ (b'0' + n % 10) ∷ []) refl
      (is_empty-append (decimal_from fuel (n / 10)) _)

-- The decimal digits of a number in range read as the number.
pub from_str_radix-decimal :
    (bound n : ℕ) → n < bound → from_str_radix 10 bound (decimal n) ≡ some n
unfolding decimal
from_str_radix-decimal bound n l = ground (
  arith,
  value-decimal_from (suc n) n,
  from_str_radix_lem 10 (omega arith) bound (decimal_from (suc n) n) (omega (arith, l))
      (omega arith) (is_empty-decimal_from n n) (is_digit-decimal_from (suc n) n),
)
