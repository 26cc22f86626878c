-- ===== src/Perm/Argument.antt =====
-- Reading the argument of `-perm` (src/perm.rs). The source reads the digits and letters from a lossy
-- UTF-8 rendering; any other byte is refused before and after that, so the bytes are read as they are.
use Prim.Native.Nat.{bit_and, bit_or}
use rushfind.Perm.Matcher.{PermMatcher}
use rushfind.Std.Int.{is_digit, from_str_radix}
use rushfind.Diagnostics.{err, ◌>>=◌, ok, Diagnostic, Result, new, Message}
use rushfind.Prelude.{
  ◌&&◌, none, is_empty, ◌==◌, false, some, [], if◌then◌else◌, ◌∷◌, not, true, Option, List, ℕ,
  Bytes, Bool, ◌-◌, ◌/◌, ◌*◌, ◌^◌, all,
}

pub data PermMatchKind : Type 0 where
  exact all_of any_of : PermMatchKind

pub data SymbolicOp : Type 0 where
  add remove assign : SymbolicOp

pub data SymbolicPerm : Type 0 where
  read write execute conditional_execute set_id sticky copy_user copy_group copy_other :
      SymbolicPerm

-- A `WhoMask` is its bits.
pub record SymbolicClause : Type 0 where
  pub who : ℕ
  pub op : SymbolicOp
  pub perms : List SymbolicPerm

unfoldable pub invalid_mode : Bytes → Diagnostic
invalid_mode raw = new (Message.invalid_mode raw) 1

-- Whether a mask has a bit of another.
abbrev pub has_bit : ℕ → ℕ → Bool
has_bit mask bit = not (bit_and mask bit == 0)

abbrev pub bits_if : Bool → ℕ → ℕ
bits_if b bits = if b then bits else 0

-- `mode & !bits`
abbrev pub without : ℕ → ℕ → ℕ
without mode bits = mode - bit_and mode bits

unfoldable pub class_bits : ℕ → ℕ → ℕ
class_bits who template =
    bit_or
      (bit_or (bits_if (has_bit who 0b001) (bit_and template 0o700))
        (bits_if (has_bit who 0b010) (bit_and template 0o070)))
      (bits_if (has_bit who 0b100) (bit_and template 0o007))

-- The bits of the class that the mask selects, as those of the last class.
unfoldable pub copied_source : ℕ → ℕ → ℕ
copied_source current_mode source_mask =
    if source_mask == 0o700
    then bit_and current_mode 0o700 / 2 ^ 6
    else if source_mask == 0o070
    then bit_and current_mode 0o070 / 2 ^ 3
    else if source_mask == 0o007
    then bit_and current_mode 0o007
    else 0

unfoldable pub copy_class_bits : ℕ → ℕ → ℕ → ℕ
unfolding copied_source
copy_class_bits current_mode who source_mask =
    let source = copied_source current_mode source_mask in
    bit_or
      (bit_or (bits_if (has_bit who 0b001) (source * 2 ^ 6))
        (bits_if (has_bit who 0b010) (source * 2 ^ 3)))
      (bits_if (has_bit who 0b100) source)

unfoldable pub assign_target_bits : ℕ → ℕ
assign_target_bits who =
    bit_or (bit_or (bits_if (has_bit who 0b001) 0o4700) (bits_if (has_bit who 0b010) 0o2070))
      (bits_if (has_bit who 0b100) 0o1007)

-- The `match` of `resolve_symbolic_perms`.
unfoldable pub perm_bits : ℕ → ℕ → SymbolicPerm → ℕ
unfolding class_bits copy_class_bits
perm_bits who current_mode SymbolicPerm.read = class_bits who 0o444
perm_bits who current_mode SymbolicPerm.write = class_bits who 0o222
perm_bits who current_mode SymbolicPerm.execute = class_bits who 0o111
perm_bits who current_mode SymbolicPerm.conditional_execute =
    bits_if (has_bit current_mode 0o111) (class_bits who 0o111)
perm_bits who current_mode SymbolicPerm.set_id =
    bit_or (bits_if (has_bit who 0b001) 0o4000) (bits_if (has_bit who 0b010) 0o2000)
perm_bits who current_mode SymbolicPerm.sticky = bits_if (has_bit who 0b100) 0o1000
perm_bits who current_mode SymbolicPerm.copy_user = copy_class_bits current_mode who 0o700
perm_bits who current_mode SymbolicPerm.copy_group = copy_class_bits current_mode who 0o070
perm_bits who current_mode SymbolicPerm.copy_other = copy_class_bits current_mode who 0o007

-- The loop over the permissions, from the bits that are set.
unfoldable pub resolve_symbolic_perms : ℕ → ℕ → ℕ → List SymbolicPerm → ℕ
unfolding perm_bits
resolve_symbolic_perms bits who current_mode [] = bits
resolve_symbolic_perms bits who current_mode (perm ∷ perms) =
    resolve_symbolic_perms (bit_or bits (perm_bits who current_mode perm)) who current_mode perms

abbrev pub apply_op : SymbolicOp → ℕ → ℕ → ℕ → ℕ
apply_op SymbolicOp.add who mode resolved = bit_or mode resolved
apply_op SymbolicOp.remove who mode resolved = without mode resolved
apply_op SymbolicOp.assign who mode resolved =
    bit_or (without mode (assign_target_bits who)) resolved

-- The loop of `resolve_symbolic_mode`.
unfoldable pub resolve_clauses : ℕ → List SymbolicClause → ℕ
unfolding resolve_symbolic_perms assign_target_bits
resolve_clauses mode [] = mode
resolve_clauses mode (clause ∷ clauses) =
    resolve_clauses
      (apply_op clause.op clause.who mode (resolve_symbolic_perms 0 clause.who mode clause.perms))
      clauses

unfoldable pub who_bit : ℕ → Option ℕ
who_bit c =
    if c == b'u'
    then some 0b001
    else if c == b'g'
    then some 0b010
    else if c == b'o'
    then some 0b100
    else if c == b'a'
    then some 0b111
    else none

-- The first loop of `parse_symbolic_clause`: the mask, and what is left.
unfoldable pub parse_who : ℕ → Bytes → ℕ × Bytes
unfolding who_bit
parse_who who [] = (who, [])
parse_who who (c ∷ rest) = elim (who_bit c) [
  | some bits ↦ parse_who (bit_or who bits) rest
  | none ↦ (who, c ∷ rest)
]

unfoldable pub op_from : Bytes → Option SymbolicOp
op_from [] = none
op_from (c ∷ rest) =
    if c == b'+'
    then some SymbolicOp.add
    else if c == b'-'
    then some SymbolicOp.remove
    else if c == b'='
    then some SymbolicOp.assign
    else none

unfoldable pub perm_from : ℕ → Option SymbolicPerm
perm_from c =
    if c == b'r'
    then some SymbolicPerm.read
    else if c == b'w'
    then some SymbolicPerm.write
    else if c == b'x'
    then some SymbolicPerm.execute
    else if c == b'X'
    then some SymbolicPerm.conditional_execute
    else if c == b's'
    then some SymbolicPerm.set_id
    else if c == b't'
    then some SymbolicPerm.sticky
    else if c == b'u'
    then some SymbolicPerm.copy_user
    else if c == b'g'
    then some SymbolicPerm.copy_group
    else if c == b'o'
    then some SymbolicPerm.copy_other
    else none

-- The last loop of `parse_symbolic_clause`.
unfoldable pub parse_perms : Bytes → Option (List SymbolicPerm)
unfolding perm_from
parse_perms [] = some []
parse_perms (c ∷ rest) = elim (perm_from c) [
  | none ↦ none
  | some perm ↦ elim (parse_perms rest) [ none ↦ none | some perms ↦ some (perm ∷ perms) ]
]

abbrev pub drop_one : Bytes → Bytes
drop_one [] = []
drop_one (c ∷ rest) = rest

abbrev pub is_exact_kind : PermMatchKind → Bool
is_exact_kind PermMatchKind.exact = true
is_exact_kind _ = false

-- What follows the mask.
unfoldable pub clause_for : ℕ → Bytes → Bytes → Result SymbolicClause
unfolding op_from parse_perms invalid_mode
clause_for who rest raw = elim (op_from rest) [
  | none ↦ err (invalid_mode raw)
  | some op ↦ elim (parse_perms (drop_one rest)) [
    | none ↦ err (invalid_mode raw)
    | some perms ↦ ok (record { who = who; op = op; perms = perms })
  ]
]

unfoldable pub parse_symbolic_clause : Bytes → PermMatchKind → Bytes → Result SymbolicClause
unfolding parse_who clause_for invalid_mode
parse_symbolic_clause clause kind raw =
    let (who, rest) = parse_who 0 clause in
    if who == 0
    then if is_exact_kind kind then clause_for 0b111 rest raw else err (invalid_mode raw)
    else clause_for who rest raw

-- `split(',')`: the text before the first comma, and the parts behind it
abbrev pub split_commas : Bytes → Bytes × List Bytes
split_commas [] = ([], [])
split_commas (c ∷ rest) =
    let (first, others) = split_commas rest in
    if c == b',' then ([], first ∷ others) else (c ∷ first, others)

unfoldable pub parse_clause_list : List Bytes → PermMatchKind → Bytes → Result (List SymbolicClause)
unfolding parse_symbolic_clause
parse_clause_list [] kind raw = ok []
parse_clause_list (clause ∷ clauses) kind raw = parse_symbolic_clause clause kind raw >>= λ parsed.
    parse_clause_list clauses kind raw >>= λ rest. ok (parsed ∷ rest)

-- `parse_symbolic_clauses`, of which there is one at least
unfoldable pub parse_symbolic_clauses : Bytes → PermMatchKind → Bytes → Result (List SymbolicClause)
unfolding parse_clause_list
parse_symbolic_clauses symbolic kind raw =
    let (first, others) = split_commas symbolic in parse_clause_list (first ∷ others) kind raw

unfoldable pub resolve_symbolic_mode : Bytes → PermMatchKind → Bytes → Result ℕ
unfolding parse_symbolic_clauses resolve_clauses
resolve_symbolic_mode symbolic kind raw = parse_symbolic_clauses symbolic kind raw >>= λ clauses.
    ok (bit_and (resolve_clauses 0 clauses) 0o7777)

unfoldable pub parse_octal_mask : Bytes → Bytes → Result ℕ
unfolding invalid_mode
parse_octal_mask digits raw = elim (from_str_radix 8 (2 ^ 32) digits) [
  | none ↦ err (invalid_mode raw)
  | some value ↦ ok (bit_and value 0o7777)
]

-- The `match` on the kind at the end.
abbrev pub matcher_of : PermMatchKind → ℕ → PermMatcher
matcher_of PermMatchKind.exact mask = PermMatcher.exact mask
matcher_of PermMatchKind.all_of mask = PermMatcher.all mask
matcher_of PermMatchKind.any_of mask = PermMatcher.any mask

-- From the kind on.
unfoldable pub parse_body : PermMatchKind → Bytes → Bytes → Result PermMatcher
unfolding parse_octal_mask resolve_symbolic_mode invalid_mode
parse_body kind body raw =
    if is_empty body
    then err (invalid_mode raw)
    else (if all (is_digit 8) body
        then parse_octal_mask body raw
        else resolve_symbolic_mode body kind raw)
      >>= λ mask. ok (matcher_of kind mask)

unfoldable pub parse_perm_argument : Bytes → Result PermMatcher
unfolding parse_body invalid_mode
parse_perm_argument [] = parse_body PermMatchKind.exact [] []
parse_perm_argument (c ∷ rest) =
    if c == b'-'
    then parse_body PermMatchKind.all_of rest (c ∷ rest)
    else if c == b'/'
    then parse_body PermMatchKind.any_of rest (c ∷ rest)
    else if (c == b'+') && all (is_digit 10) rest
    then err (invalid_mode (c ∷ rest))
    else parse_body PermMatchKind.exact (c ∷ rest) (c ∷ rest)
