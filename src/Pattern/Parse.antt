-- ===== src/Pattern/Parse.antt =====
-- Compiling a pattern (src/pattern/parse.rs).
-- `idx` is the part of the pattern from that index on; a `&mut idx` is returned with the result.
-- The loops run on fuel: each round takes at least one byte, so the pattern's length is enough.
use rushfind.Prelude.{
  ℕ, zero, suc, Bool, true, false, not, ◌&&◌, ◌||◌, List, [], ◌∷◌, ◌++◌, Option, none, some, ◌==◌,
  if◌then◌else◌, Bytes, length,
}
use rushfind.Diagnostics.{
  Result, ok, err, ◌>>=◌, new, out_of_fuel, collating_symbols_out_of_scope,
  equivalence_classes_out_of_scope,
}
use rushfind.Pattern.Ir.{ClassItem, GlobClass, GlobAtom, GlobProgram, any_byte, any_sequence, class}

abbrev pub backslash : ℕ
backslash = 92

-- `pattern.get(idx)` is the byte `b`
abbrev pub starts_with : ℕ → Bytes → Bool
starts_with b [] = false
starts_with b (c ∷ rest) = c == b

-- What follows a backslash, as itself; a backslash at the end stands for itself.
unfoldable pub escaped : Bytes → ℕ × Bytes
escaped [] = (backslash, [])
escaped (c ∷ rest) = (c, rest)

-- `consume_class_byte`
unfoldable pub consume_class_byte : Bytes → Bytes → Result (Option (ℕ × Bytes))
unfolding escaped
consume_class_byte flag [] = ok none
consume_class_byte flag (byte ∷ rest) =
    if byte == b'[' && starts_with b'.' rest
    then err (new (collating_symbols_out_of_scope flag) 1)
    else if byte == b'[' && starts_with b'=' rest
    then err (new (equivalence_classes_out_of_scope flag) 1)
    else if byte == backslash
    then ok (some (escaped rest))
    else ok (some (byte, rest))

-- `-` follows, and then neither the end nor `]`
abbrev pub starts_range : Bytes → Bool
starts_range (dash ∷ next ∷ rest) = dash == b'-' && not (next == b']')
starts_range _ = false

abbrev pub tail_bytes : Bytes → Bytes
tail_bytes [] = []
tail_bytes (c ∷ rest) = rest

-- The end of a range, after its dash.
unfoldable pub range_to : ℕ → Option (ℕ × Bytes) → Result (Option (ClassItem × Bytes))
range_to start none = ok none
range_to start (some (end, rest)) = ok (some (ClassItem.range start end, rest))

unfoldable pub item_from : Bytes → Option (ℕ × Bytes) → Result (Option (ClassItem × Bytes))
unfolding range_to
item_from flag none = ok none
item_from flag (some (start, rest)) =
    if starts_range rest
    then consume_class_byte flag (tail_bytes rest) >>= range_to start
    else ok (some (ClassItem.literal start, rest))

-- One round of the loop of `try_parse_class`, after the test for the closing bracket.
unfoldable pub class_item : Bytes → Bytes → Result (Option (ClassItem × Bytes))
unfolding item_from
class_item flag pattern = consume_class_byte flag pattern >>= item_from flag

-- The `while` loop of `try_parse_class`. `saw_non_closing` is false in the first round only.
unfoldable pub class_loop :
    ℕ → Bytes → Bool → Bytes → List ClassItem → Bool → Result (Option (GlobClass × Bytes))
unfolding class_item
class_loop fuel flag negated [] items saw_non_closing = ok none
class_loop zero flag negated (_ ∷ _) items saw_non_closing = err (new out_of_fuel 1)
class_loop (suc fuel) flag negated (byte ∷ rest) items saw_non_closing =
    if byte == b']' && saw_non_closing
    then ok (some (record { negated = negated; items = items }, rest))
    else (class_item flag (byte ∷ rest) >>= λ next. elim next [
      | none ↦ ok none
      | some (item, after) ↦ class_loop fuel flag negated after (items ++ item ∷ []) true
    ])

abbrev pub negation : Bytes → Bool × Bytes
negation [] = (false, [])
negation (c ∷ rest) = if c == b'!' || c == b'^' then (true, rest) else (false, c ∷ rest)

-- `try_parse_class`
unfoldable pub try_parse_class : Bytes → Bytes → Result (Option (GlobClass × Bytes))
unfolding class_loop consume_class_byte
try_parse_class flag pattern =
    let (negated, body) = negation pattern in
    if starts_with b']' body
    then class_loop (length body) flag negated (tail_bytes body) (ClassItem.literal b']' ∷ []) true
    else class_loop (length body) flag negated body [] false

-- `!matches!(program.last(), Some(AnySequence))`, then the push
abbrev pub push_sequence : GlobProgram → GlobProgram
push_sequence [] = any_sequence ∷ []
push_sequence (any_sequence ∷ []) = any_sequence ∷ []
push_sequence (atom ∷ []) = atom ∷ any_sequence ∷ []
push_sequence (atom ∷ next ∷ program) = atom ∷ push_sequence (next ∷ program)

abbrev pub push_atom : GlobAtom → GlobProgram → GlobProgram
push_atom atom program = program ++ atom ∷ []

-- A class that does not close leaves the `[` a literal.
unfoldable pub class_atom : Bytes → GlobProgram → Option (GlobClass × Bytes) → GlobProgram × Bytes
class_atom rest program none = (push_atom (GlobAtom.literal b'[') program, rest)
class_atom rest program (some (c, after)) = (push_atom (class c) program, after)

-- The `match` on one byte: the new program, and the pattern that is left.
unfoldable pub next_atom : Bytes → ℕ → Bytes → GlobProgram → Result (GlobProgram × Bytes)
unfolding try_parse_class class_atom
next_atom flag byte rest program =
    if byte == backslash
    then ok (push_atom (GlobAtom.literal (escaped rest).0) program, (escaped rest).1)
    else if byte == b'*'
    then ok (push_sequence program, rest)
    else if byte == b'?'
    then ok (push_atom any_byte program, rest)
    else if byte == b'['
    then try_parse_class flag rest >>= (λ parsed. ok (class_atom rest program parsed))
    else ok (push_atom (GlobAtom.literal byte) program, rest)

unfoldable pub compile_loop : ℕ → Bytes → Bytes → GlobProgram → Result GlobProgram
compile_loop fuel flag [] program = ok program
compile_loop zero flag (_ ∷ _) program = err (new out_of_fuel 1)
compile_loop (suc fuel) flag (byte ∷ rest) program = do
  (program', after) ← next_atom flag byte rest program
  compile_loop fuel flag after program'

unfoldable pub compile_pattern : Bytes → Bytes → Result GlobProgram
unfolding compile_loop next_atom
compile_pattern flag pattern = compile_loop (length pattern) flag pattern []
