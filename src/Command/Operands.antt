-- ===== src/Command/Operands.antt =====
-- How the tokens of operands read, alone and next to each other (src/parser.rs).
-- What is shown of the tokens of an operand is said of any tokens `ts` that read as `e`, whatever stands
-- behind them.
use rushfind.Command.Ast.{negation, either, push, Expr, Exprs, no_exprs, expr}
use rushfind.Command.Parser.{
  is_close, is_open, is_not, parse_or_expression, or_loop, parse_and_expression, and_loop,
  parse_not_expression, parse_primary, is_or, is_and, starts_primary, conjunction_of,
}
use rushfind.Command.Printer.{
  short, implied, not_word, and_tokens, or_word, AndWord, Spelling, enclose,
}
use rushfind.Command.Tokens.{next_is, Tokens}
use rushfind.Prelude.{
  elim_of_true, if_cases, ap, refl, append_assoc, [], ◌∙◌, zero, length-append, elim_of_false, ◌+◌,
  ◌∷◌, length, false, ◌*◌, codes, ◌≤◌, ◌≡◌, suc, true, ℕ, ◌&&◌, not, ◌++◌, arith, Bool,
}
use rushfind.Diagnostics.{◌>>=◌, ok}
use rushfind.Command.AtomRoundTrip.{is_atom}
use rushfind.Command.Atoms.{parse_atom}

-- Tokens that end a conjunction.
abbrev pub stops_and : Tokens → Bool
stops_and rest = not (next_is is_and rest) && not (starts_primary rest)

-- Tokens that end an expression.
abbrev pub stops_or : Tokens → Bool
stops_or rest = stops_and rest && not (next_is is_or rest)

pub stops_or-stops_and : (rest : Tokens) → stops_or rest ≡ true → stops_and rest ≡ true
stops_or-stops_and rest n = grind arith

pub stops_or-next_is : (rest : Tokens) → stops_or rest ≡ true → next_is is_or rest ≡ false
stops_or-next_is rest n = grind arith

abbrev pub NotReads : Tokens → Expr → Type 0
NotReads ts e =
    (rest : Tokens) (fuel : ℕ)
    → 4 * (length ts + length rest) + 2 ≤ fuel
    → parse_not_expression fuel (ts ++ rest) ≡ ok (e, rest)

abbrev pub AndReads : Tokens → Expr → Type 0
AndReads ts e =
    (rest : Tokens) (fuel : ℕ)
    → stops_and rest ≡ true
    → 4 * (length ts + length rest) + 3 ≤ fuel
    → parse_and_expression fuel (ts ++ rest) ≡ ok (e, rest)

-- The loop is left with enough fuel for the tokens behind.
abbrev pub OrReads : Tokens → Expr → Type 0
OrReads ts e =
    (rest : Tokens) (fuel : ℕ)
    → stops_and rest ≡ true
    → 4 * (length ts + length rest) + 4 ≤ fuel
    → (left : ℕ) × (4 * length rest + 1 ≤ left)
      × (parse_or_expression fuel (ts ++ rest) ≡ or_loop left e rest)

-- The tokens start an item, and neither a word between items nor what ends them.
abbrev pub Opens : Tokens → Type 0
Opens ts =
    (rest : Tokens) → (next_is is_and (ts ++ rest) ≡ false) × (starts_primary (ts ++ rest) ≡ true)

pub or_loop-stops :
    (fuel : ℕ) (e : Expr) (rest : Tokens)
    → 1 ≤ fuel
    → next_is is_or rest ≡ false
    → or_loop fuel e rest ≡ ok (e, rest)
unfolding or_loop
or_loop-stops zero e rest f n = absurd (omega (arith, f))
or_loop-stops (suc fuel) e rest f n = elim_of_false (next_is is_or rest) _ _ n

pub and_loop-stops :
    (fuel : ℕ) (items : Exprs) (rest : Tokens)
    → 1 ≤ fuel
    → stops_and rest ≡ true
    → and_loop fuel items rest ≡ ok (conjunction_of items, rest)
unfolding and_loop
and_loop-stops zero items rest f n = absurd (omega (arith, f))
and_loop-stops (suc fuel) items rest f n =
    elim_of_false (next_is is_and rest) _ _ (grind arith)
    ∙ elim_of_false (starts_primary rest) _ _ (grind arith)

pub AndReads-NotReads : (ts : Tokens) (e : Expr) → NotReads ts e → AndReads ts e
unfolding parse_and_expression
AndReads-NotReads ts e h rest zero n f = absurd (omega (arith, f))
AndReads-NotReads ts e h rest (suc fuel) n f =
    rw (h rest fuel (omega (arith, f)))
      (and_loop-stops fuel (expr e no_exprs) rest (omega (arith, f)) n)

pub OrReads-AndReads : (ts : Tokens) (e : Expr) → AndReads ts e → OrReads ts e
unfolding parse_or_expression
OrReads-AndReads ts e h rest zero n f = absurd (omega (arith, f))
OrReads-AndReads ts e h rest (suc fuel) n f =
    (fuel, omega (arith, f), rw (h rest fuel n (omega (arith, f))) refl)

-- A group reads as what it encloses.
pub NotReads-OrReads : (ts : Tokens) (e : Expr) → OrReads ts e → NotReads (enclose true ts) e
unfolding parse_not_expression parse_primary
NotReads-OrReads ts e h rest zero f = absurd (omega (arith, f))
NotReads-OrReads ts e h rest (suc zero) f = absurd (omega (arith, f))
NotReads-OrReads ts e h rest (suc (suc fuel)) f =
    let (left, enough, reads) =
      h (codes ")" ∷ rest) fuel refl (omega (arith, f, length-append ts (codes ")" ∷ []))) in
    rw
      (
        append_assoc ts (codes ")" ∷ []) rest,
        reads,
        or_loop-stops left e (codes ")" ∷ rest) (omega (arith, enough)) refl,
      )
      refl

pub or_word-stops_and : (s : Spelling) (ts : Tokens) → stops_and (or_word s ∷ ts) ≡ true
or_word-stops_and s ts = if_cases (λ w. stops_and (w ∷ ts) ≡ true) s.long_or _ _ refl refl

pub or_loop-or_word :
    (s : Spelling) (fuel : ℕ) (left : Expr) (ts : Tokens)
    → or_loop (suc fuel) left (or_word s ∷ ts)
      ≡ (parse_and_expression fuel ts >>= λ (right, rest). or_loop fuel (either left right) rest)
unfolding or_loop
or_loop-or_word s fuel left ts =
    elim_of_true (is_or (or_word s)) _ _
      (if_cases (λ w. is_or w ≡ true) s.long_or (codes "-or") (codes "-o") refl refl)

pub OrReads-either :
    (s : Spelling) (ts us : Tokens) (left right : Expr)
    → OrReads ts left
    → AndReads us right
    → OrReads (ts ++ or_word s ∷ us) (either left right)
OrReads-either s ts us left right l r rest fuel n f =
    let size : length (ts ++ or_word s ∷ us) ≡ length ts + (1 + length us) =
      omega (arith, length-append ts (or_word s ∷ us)) in
    let rest_size : length (us ++ rest) ≡ length us + length rest = length-append us rest in
    let (g, enough, reads) =
      l (or_word s ∷ (us ++ rest)) fuel (or_word-stops_and s (us ++ rest))
        (omega (arith, f, size, rest_size)) in
    by_fuel g enough rest_size reads
  where
    by_fuel :
        (g : ℕ)
        → 4 * suc (length (us ++ rest)) + 1 ≤ g
        → length (us ++ rest) ≡ length us + length rest
        → parse_or_expression fuel (ts ++ (or_word s ∷ (us ++ rest)))
          ≡ or_loop g left (or_word s ∷ (us ++ rest))
        → (k : ℕ) × (4 * length rest + 1 ≤ k)
          × (parse_or_expression fuel ((ts ++ or_word s ∷ us) ++ rest)
              ≡ or_loop k (either left right) rest)
    by_fuel zero enough size e = absurd (omega (arith, enough))
    by_fuel (suc k) enough size e = (
      k,
      omega (arith, enough, size),
      rw
          (
            append_assoc ts (or_word s ∷ us) rest,
            e,
            or_loop-or_word s k left (us ++ rest),
            r rest k n (omega (arith, enough, size)),
          )
          refl,
    )

pub NotReads-negation :
    (s : Spelling) (ts : Tokens) (e : Expr)
    → NotReads ts e
    → NotReads (not_word s ∷ ts) (negation e)
unfolding parse_not_expression
NotReads-negation s ts e h rest zero f = absurd (omega (arith, f))
NotReads-negation s ts e h rest (suc fuel) f =
    elim_of_true (is_not (not_word s)) _ _
      (if_cases (λ w. is_not w ≡ true) s.long_not (codes "-not") (codes "!") refl refl)
    ∙ rw (h rest fuel (omega (arith, f))) refl

pub Opens-negation : (s : Spelling) (ts : Tokens) → Opens (not_word s ∷ ts)
Opens-negation s ts rest =
    if_cases
      (λ w.
        (next_is is_and (w ∷ (ts ++ rest)) ≡ false) × (starts_primary (w ∷ (ts ++ rest)) ≡ true))
      s.long_not (codes "-not") (codes "!") (refl, refl) (refl, refl)

-- What starts with an atom's token.
pub NotReads-atom :
    (ts : Tokens) (e : Expr)
    → ((rest : Tokens) → next_is is_atom (ts ++ rest) ≡ true)
    → ((rest : Tokens) → parse_atom (ts ++ rest) ≡ ok (e, rest))
    → NotReads ts e
unfolding parse_not_expression parse_primary
NotReads-atom ts e a h rest zero f = absurd (omega (arith, f))
NotReads-atom ts e a h rest (suc zero) f = absurd (omega (arith, f))
NotReads-atom ts e a h rest (suc (suc fuel)) f =
    let (no_not, no_open, no_close) = starts (ts ++ rest) (a rest) in
    elim_of_false (next_is is_not (ts ++ rest)) _ _ no_not
    ∙ elim_of_false (next_is is_open (ts ++ rest)) _ _ no_open
    ∙ elim_of_false (next_is is_close (ts ++ rest)) _ _ no_close
    ∙ h rest
  where
    starts :
        (us : Tokens)
        → next_is is_atom us ≡ true
        → (next_is is_not us ≡ false) × (next_is is_open us ≡ false) × (next_is is_close us ≡ false)
    starts [] e = cc
    starts (token ∷ us) e = (grind arith, grind arith, grind arith)

pub Opens-atom : (ts : Tokens) → ((rest : Tokens) → next_is is_atom (ts ++ rest) ≡ true) → Opens ts
Opens-atom ts a rest = opens (ts ++ rest) (a rest)
  where
    opens :
        (us : Tokens)
        → next_is is_atom us ≡ true
        → (next_is is_and us ≡ false) × (starts_primary us ≡ true)
    opens [] e = cc
    opens (token ∷ us) e = (grind arith, grind arith)

-- An item that is enclosed where its kind asks for it.
pub and_loop-item :
    (w : AndWord) (fuel : ℕ) (items : Exprs) (ts : Tokens)
    → (next_is is_and ts ≡ false) × (starts_primary ts ≡ true)
    → and_loop (suc fuel) items (and_tokens w ++ ts)
      ≡ (parse_not_expression fuel ts >>= λ (item, rest). and_loop fuel (push items item) rest)
unfolding and_loop
and_loop-item implied fuel items ts o =
    elim_of_false (next_is is_and ts) _ _ (o.0) ∙ elim_of_true (starts_primary ts) _ _ (o.1)
and_loop-item short fuel items ts o = refl
and_loop-item AndWord.long fuel items ts o = refl

abbrev pub pushes : Exprs → Exprs → Exprs
pushes items no_exprs = items
pushes items (expr e rest) = pushes (push items e) rest

pub pushes-expr :
    (e : Expr) (items rest : Exprs) → pushes (expr e items) rest ≡ expr e (pushes items rest)
unfolding push
pushes-expr e items no_exprs = refl
pushes-expr e items (expr x rest) = pushes-expr e (push items x) rest

pub pushes-no_exprs : (rest : Exprs) → pushes no_exprs rest ≡ rest
unfolding push
pushes-no_exprs no_exprs = refl
pushes-no_exprs (expr x rest) = pushes-expr x no_exprs rest ∙ ap (expr x) (pushes-no_exprs rest)
