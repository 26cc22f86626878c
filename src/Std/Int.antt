-- ===== src/Std/Int.antt =====
-- `str::parse` and `from_str_radix` for unsigned integers, as the standard library documents them: one
-- `+` may stand in front, then one digit or more, and a value out of range is an error.
use rushfind.Prelude.{
  ℕ, ◌+◌, ◌-◌, ◌*◌, ◌^◌, Bool, ◌&&◌, [], ◌∷◌, Option, none, some, ◌==◌, leb, ltb, if◌then◌else◌,
  Bytes,
}

-- `char::to_digit`, for a radix of at most ten
unfoldable pub is_digit : ℕ → ℕ → Bool
is_digit radix c = leb b'0' c && ltb c (b'0' + radix)

-- `checked_mul` and `checked_add` against the type's bound
unfoldable pub push_digit : ℕ → ℕ → ℕ → ℕ → Option ℕ
unfolding is_digit
push_digit radix bound acc c =
    if is_digit radix c && ltb (acc * radix + (c - b'0')) bound
    then some (acc * radix + (c - b'0'))
    else none

unfoldable pub digits_from : ℕ → ℕ → ℕ → Bytes → Option ℕ
digits_from radix bound acc [] = some acc
digits_from radix bound acc (c ∷ rest) = elim (push_digit radix bound acc c) [
  | none ↦ none
  | some next ↦ digits_from radix bound next rest
]

abbrev pub nonempty_digits : ℕ → ℕ → Bytes → Option ℕ
nonempty_digits radix bound [] = none
nonempty_digits radix bound (c ∷ rest) = digits_from radix bound 0 (c ∷ rest)

unfoldable pub from_str_radix : ℕ → ℕ → Bytes → Option ℕ
from_str_radix radix bound [] = none
from_str_radix radix bound (c ∷ rest) =
    if c == b'+' then nonempty_digits radix bound rest else nonempty_digits radix bound (c ∷ rest)

-- `parse::<u64>` and `parse::<u32>`
abbrev pub parse_u64 : Bytes → Option ℕ
parse_u64 = from_str_radix 10 (2 ^ 64)

abbrev pub parse_u32 : Bytes → Option ℕ
parse_u32 = from_str_radix 10 (2 ^ 32)
