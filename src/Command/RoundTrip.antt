-- ===== src/Command/RoundTrip.antt =====
-- An expression that is written is read back (src/parser.rs).
use rushfind.Command.Ast.{
  action, predicate, conjunction, negation, either, push, Expr, Exprs, no_exprs, expr,
}
use rushfind.Command.Parser.{
  parse_or_expression, parse_and_expression, and_loop, is_and, starts_primary, conjunction_of,
}
use rushfind.Command.Printer.{
  action_tokens, predicate_tokens, AreWritable, IsWritable, is_compound, later_tokens, is_either,
  expr_tokens, not_word, and_tokens, AndWord, Spelling, enclose,
}
use rushfind.Command.Tokens.{next_is, Tokens}
use rushfind.Prelude.{
  refl, append_assoc, [], ◌∙◌, zero, length-append, ◌+◌, ◌∷◌, length, false, ◌*◌, ◌≤◌, ◌≡◌, suc,
  true, ℕ, ◌++◌, arith,
}
use rushfind.Diagnostics.{ok}
use rushfind.Command.AtomRoundTrip.{
  parse_atom-action_tokens, next_is-is_atom-action_tokens, parse_atom-predicate_tokens,
  next_is-is_atom-predicate_tokens,
}
use rushfind.Command.Operands.{
  and_loop-stops, Opens-atom, NotReads-atom, Opens-negation, NotReads-negation, stops_or-next_is,
  OrReads-either, or_loop-stops, NotReads-OrReads, AndReads-NotReads, pushes-no_exprs, pushes-expr,
  pushes, and_loop-item, stops_or-stops_and, OrReads-AndReads, NotReads, stops_or, OrReads,
  AndReads, stops_and, Opens,
}

-- What is shown of an expression: how its tokens read where they stand alone, as an operand of `-a`, and
-- as one of `!`, and that they open an item there.
abbrev Reads : Spelling → Expr → Type 0
Reads s e =
    OrReads (expr_tokens s e) e
    × AndReads (enclose (is_either e) (expr_tokens s e)) e
    × NotReads (enclose (is_compound e) (expr_tokens s e)) e
    × Opens (enclose (is_compound e) (expr_tokens s e))

-- An expression that is never enclosed.
Reads-simple :
    (ts : Tokens) (e : Expr)
    → NotReads ts e
    → Opens ts
    → OrReads ts e × AndReads ts e × NotReads ts e × Opens ts
Reads-simple ts e h o =
    (OrReads-AndReads ts e (AndReads-NotReads ts e h), AndReads-NotReads ts e h, h, o)

-- The items behind those that have been read.
abbrev LaterReads : Tokens → Exprs → Type 0
LaterReads ts items =
    (acc : Exprs) (rest : Tokens) (fuel : ℕ)
    → stops_and rest ≡ true
    → 4 * (length ts + length rest) + 3 ≤ fuel
    → and_loop fuel acc (ts ++ rest) ≡ ok (conjunction_of (pushes acc items), rest)

length-Opens : (ts : Tokens) → Opens ts → 1 ≤ length ts
length-Opens [] o = absurd_of (o [])
  where
    absurd_of : (next_is is_and [] ≡ false) × (starts_primary [] ≡ true) → 1 ≤ 0
    absurd_of (a, b) = cc
length-Opens (token ∷ ts) o = omega arith

item_read :
    (w : AndWord) (ts later : Tokens) (e : Expr) (items : Exprs)
    → NotReads ts e
    → Opens ts
    → LaterReads later items
    → LaterReads (and_tokens w ++ (ts ++ later)) (expr e items)
item_read w ts later e items h o l acc rest zero n f = absurd (omega (arith, f))
item_read w ts later e items h o l acc rest (suc fuel) n f =
    let size : length (and_tokens w ++ (ts ++ later))
        ≡ length (and_tokens w) + (length ts + length later) =
      omega (arith, length-append (and_tokens w) (ts ++ later), length-append ts later) in
    let behind : length (later ++ rest) ≡ length later + length rest = length-append later rest in
    let some_token : 1 ≤ length ts = length-Opens ts o in
    rw (append_assoc (and_tokens w) (ts ++ later) rest, append_assoc ts later rest)
      (and_loop-item w fuel acc (ts ++ (later ++ rest)) (o (later ++ rest))
        ∙ rw
            (
              h (later ++ rest) fuel (omega (arith, f, size, behind)),
              l (push acc e) rest fuel n (omega (arith, f, size, some_token)),
            )
            refl)

items_read :
    (first second : Expr) (items : Exprs) (ts later : Tokens)
    → NotReads ts first
    → Opens ts
    → LaterReads later (expr second items)
    → AndReads (ts ++ later) (conjunction (expr first (expr second items)))
unfolding parse_and_expression
items_read first second items ts later h o l rest zero n f = absurd (omega (arith, f))
items_read first second items ts later h o l rest (suc fuel) n f =
    let size : length (ts ++ later) ≡ length ts + length later = length-append ts later in
    let behind : length (later ++ rest) ≡ length later + length rest = length-append later rest in
    let some_token : 1 ≤ length ts = length-Opens ts o in
    rw
      (
        append_assoc ts later rest,
        h (later ++ rest) fuel (omega (arith, f, size, behind)),
        l (expr first no_exprs) rest fuel n (omega (arith, f, size, some_token)),
        pushes-expr first no_exprs (expr second items),
        pushes-no_exprs (expr second items),
      )
      refl

mutual
  unfolding expr_tokens later_tokens IsWritable AreWritable parse_and_expression

  expr_tokens-Reads : (s : Spelling) (e : Expr) → IsWritable e → Reads s e
  expr_tokens-Reads s (conjunction no_exprs) w = absurd w
  expr_tokens-Reads s (conjunction (expr first no_exprs)) w = absurd w
  expr_tokens-Reads s (conjunction (expr first (expr second items))) w =
      let reads = expr_tokens-Reads s first (w.0) in
      let first_tokens = enclose (is_compound first) (expr_tokens s first) in
      let later = later_tokens s (expr second items) in
      let all_read : AndReads (first_tokens ++ later)
          (conjunction (expr first (expr second items))) =
        items_read first second items first_tokens later (reads.2) (reads.3)
          (later_tokens-reads s (expr second items) (w.1)) in
      let whole = OrReads-AndReads (first_tokens ++ later) _ all_read in
      (whole, all_read, NotReads-OrReads (first_tokens ++ later) _ whole, λ rest. (refl, refl))
  expr_tokens-Reads s (either left right) w =
      let whole =
        OrReads-either s (expr_tokens s left) (enclose (is_either right) (expr_tokens s right)) left
          right ((expr_tokens-Reads s left (w.0)).0) ((expr_tokens-Reads s right (w.1)).1) in
      let grouped =
        NotReads-OrReads (expr_tokens s (either left right)) (either left right) whole in
      (
        whole,
        AndReads-NotReads (enclose true (expr_tokens s (either left right))) (either left right)
            grouped,
        grouped,
        λ rest. (refl, refl),
      )
  expr_tokens-Reads s (negation e) w =
      let ts = enclose (is_compound e) (expr_tokens s e) in
      Reads-simple (not_word s ∷ ts) (negation e)
        (NotReads-negation s ts e ((expr_tokens-Reads s e w).2)) (Opens-negation s ts)
  expr_tokens-Reads s (predicate p) w =
      Reads-simple (predicate_tokens p) (predicate p)
        (NotReads-atom (predicate_tokens p) (predicate p) (next_is-is_atom-predicate_tokens p)
          λ rest. parse_atom-predicate_tokens p rest w)
        (Opens-atom (predicate_tokens p) (next_is-is_atom-predicate_tokens p))
  expr_tokens-Reads s (action a) w =
      Reads-simple (action_tokens a) (action a)
        (NotReads-atom (action_tokens a) (action a) (next_is-is_atom-action_tokens a)
          λ rest. parse_atom-action_tokens a rest w)
        (Opens-atom (action_tokens a) (next_is-is_atom-action_tokens a))

  later_tokens-reads :
      (s : Spelling) (items : Exprs) → AreWritable items → LaterReads (later_tokens s items) items
  later_tokens-reads s no_exprs w =
      λ acc rest fuel n f. and_loop-stops fuel acc rest (omega (arith, f)) n
  later_tokens-reads s (expr e items) w =
      let reads = expr_tokens-Reads s e (w.0) in
      item_read s.and_word (enclose (is_compound e) (expr_tokens s e)) (later_tokens s items) e
        items (reads.2) (reads.3) (later_tokens-reads s items (w.1))

-- The tokens of an expression, alone or in front of what ends an expression, read as the expression.
pub parse_or_expression-expr_tokens :
    (s : Spelling) (e : Expr) (rest : Tokens) (fuel : ℕ)
    → IsWritable e
    → stops_or rest ≡ true
    → 4 * length (expr_tokens s e ++ rest) + 4 ≤ fuel
    → parse_or_expression fuel (expr_tokens s e ++ rest) ≡ ok (e, rest)
parse_or_expression-expr_tokens s e rest fuel w n f =
    let (left, enough, reads) =
      (expr_tokens-Reads s e w).0 rest fuel (stops_or-stops_and rest n)
        (omega (arith, f, length-append (expr_tokens s e) rest)) in
    reads ∙ or_loop-stops left e rest (omega (arith, enough)) (stops_or-next_is rest n)
