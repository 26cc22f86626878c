-- ===== src/Perm/Octal.antt =====
-- Octal modes (src/perm.rs).
use Prim.Native.Nat.{bit_and}
use rushfind.Perm.Argument.{
  PermMatchKind, parse_perm_argument, parse_body, parse_octal_mask, matcher_of, invalid_mode,
}
use rushfind.Std.Int.{is_digit}
use rushfind.Std.Digits.{value, from_str_radix_lem}
use rushfind.Diagnostics.{ok, err}
use rushfind.Prelude.{
  ◌∙◌, ◌^◌, refl, arith, ltb, ◌++◌, if◌then◌else◌, ◌≡◌, ◌∷◌, [], is_empty, Bytes, true, false, all,
}

-- The character that stands for a kind.
abbrev pub prefix : PermMatchKind → Bytes
prefix PermMatchKind.exact = []
prefix PermMatchKind.all_of = b'-' ∷ []
prefix PermMatchKind.any_of = b'/' ∷ []

parse_octal_mask_lem :
    (digits raw : Bytes)
    → is_empty digits ≡ false
    → all (is_digit 8) digits ≡ true
    → parse_octal_mask digits raw ≡ (
        if ltb (value 8 digits) (2 ^ 32)
        then ok (bit_and (value 8 digits) 0o7777)
        else err (invalid_mode raw))
unfolding parse_octal_mask
parse_octal_mask_lem digits raw e d =
    ground
      (arith, from_str_radix_lem 8 (omega arith) (2 ^ 32) digits (omega arith) (omega arith) e d)

parse_perm_argument-prefix :
    (kind : PermMatchKind) (digits : Bytes)
    → is_empty digits ≡ false
    → all (is_digit 8) digits ≡ true
    → parse_perm_argument (prefix kind ++ digits) ≡ parse_body kind digits (prefix kind ++ digits)
unfolding parse_perm_argument is_digit
parse_perm_argument-prefix kind [] e d = cc
parse_perm_argument-prefix PermMatchKind.exact (c ∷ digits) e d = grind arith
parse_perm_argument-prefix PermMatchKind.all_of (c ∷ digits) e d = refl
parse_perm_argument-prefix PermMatchKind.any_of (c ∷ digits) e d = refl

-- One octal digit or more behind nothing, `-` or `/` are the matcher of that kind with the low twelve
-- bits of the number that they write, if that number fits 32 bits, and are refused otherwise.
pub parse_perm_argument-octal :
    (kind : PermMatchKind) (digits : Bytes)
    → is_empty digits ≡ false
    → all (is_digit 8) digits ≡ true
    → parse_perm_argument (prefix kind ++ digits) ≡ (
        if ltb (value 8 digits) (2 ^ 32)
        then ok (matcher_of kind (bit_and (value 8 digits) 0o7777))
        else err (invalid_mode (prefix kind ++ digits)))
unfolding parse_body
parse_perm_argument-octal kind digits e d =
    parse_perm_argument-prefix kind digits e d
    ∙ grind (arith, e, d, parse_octal_mask_lem digits (prefix kind ++ digits) e d)
