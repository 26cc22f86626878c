-- ===== src/Std/Digits.antt =====
-- Reading digits with a check for overflow at each one gives the number that they write, if that is
-- in range, and nothing otherwise.
use rushfind.Prelude.{
  is_empty, ◌==◌, false, ℕ, ◌+◌, ◌-◌, ◌*◌, ◌≤◌, ◌<◌, true, [], ◌∷◌, none, some, ◌≡◌, ltb,
  if◌then◌else◌, Bytes, all, arith,
}
use rushfind.Std.Int.{is_digit, push_digit, digits_from, from_str_radix}

-- The number that the digits write after `acc`.
abbrev pub value_from : ℕ → ℕ → Bytes → ℕ
value_from radix acc [] = acc
value_from radix acc (c ∷ rest) = value_from radix (acc * radix + (c - b'0')) rest

abbrev pub value : ℕ → Bytes → ℕ
value radix = value_from radix 0

module _ (radix : ℕ) (positive : 0 < radix) where
  value_from_grows : (acc : ℕ) (bytes : Bytes) → acc ≤ value_from radix acc bytes
  value_from_grows acc [] = omega arith
  value_from_grows acc (c ∷ rest) = grind (arith, value_from_grows (acc * radix + (c - b'0')) rest)

  pub digits_from_lem :
      (bound acc : ℕ) (bytes : Bytes)
      → acc < bound
      → all (is_digit radix) bytes ≡ true
      → digits_from radix bound acc bytes ≡ (
          if ltb (value_from radix acc bytes) bound
          then some (value_from radix acc bytes)
          else none)
  unfolding digits_from push_digit
  digits_from_lem bound acc [] h d = ground arith
  digits_from_lem bound acc (c ∷ rest) h d = ground (
    arith,
    value_from_grows (acc * radix + (c - b'0')) rest,
    digits_from_lem bound (acc * radix + (c - b'0')) rest,
  )

  pub digits_from_refuses :
      (bound acc : ℕ) (bytes : Bytes)
      → all (is_digit radix) bytes ≡ false
      → digits_from radix bound acc bytes ≡ none
  unfolding digits_from push_digit
  digits_from_refuses bound acc [] d = cc
  digits_from_refuses bound acc (c ∷ rest) d =
      ground (arith, digits_from_refuses bound (acc * radix + (c - b'0')) rest)

  pub from_str_radix_lem :
      (bound : ℕ) (bytes : Bytes)
      → 0 < bound
      → radix ≤ 10
      → is_empty bytes ≡ false
      → all (is_digit radix) bytes ≡ true
      → from_str_radix radix bound bytes
        ≡ (if ltb (value radix bytes) bound then some (value radix bytes) else none)
  unfolding from_str_radix is_digit
  from_str_radix_lem bound [] b r e d = cc
  from_str_radix_lem bound (c ∷ rest) b r e d = ground (arith, digits_from_lem bound 0 (c ∷ rest))

  -- Any other byte is refused.
  pub from_str_radix_refuses :
      (bound c : ℕ) (bytes : Bytes)
      → (c == b'+') ≡ false
      → all (is_digit radix) (c ∷ bytes) ≡ false
      → from_str_radix radix bound (c ∷ bytes) ≡ none
  unfolding from_str_radix
  from_str_radix_refuses bound c bytes p d = rw p (digits_from_refuses bound 0 (c ∷ bytes) d)
