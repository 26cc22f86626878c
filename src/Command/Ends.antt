-- ===== src/Command/Ends.antt =====
-- Reading a command comes to an end (src/parser.rs): the fuel is enough, and what is refused is refused
-- with a diagnostic of the program.
use rushfind.Diagnostics.{err, ◌>>=◌, ok, Result, Diagnostic, out_of_fuel}
use rushfind.Command.Tokens.{next_is, bumped, matches, bump_or, Tokens}
use rushfind.Command.Atoms.{
  exec_action, two_os_strings, type_filter, time, numeric, u32, os_string, plain, Atom,
  take_exec_action, atom_of, parse_atom, take_arguments, take_os_string, exec_arguments,
  u32_or_invalid, type_filter_from,
}
use rushfind.Time.Amount.{parse_time_comparison, validate_time_argument}
use rushfind.Numeric.Comparison.{
  invalid_numeric_argument, parse_numeric_argument, validate_numeric_argument,
}
use rushfind.Prelude.{
  zero, elim_known, ◌+◌, ◌*◌, true, ◌<◌, Bool, suc, if_cases, refl, [], arith, ◌∷◌, ◌≢◌, ◌≤◌, ◌≡◌,
  ℕ, Bytes, length,
}
use rushfind.Command.Parser.{
  split_paths, global_options_of, is_open, is_not, starts_primary, is_and, is_or, parse_primary,
  parse_not_expression, and_loop, parse_and_expression, or_loop, is_close, fuel_for, close_group,
  parse_or_expression, parse_command, expect_end, parse_root,
}
use rushfind.Command.Ast.{CommandAst, push, Exprs, no_exprs, expr, either, Expr}

-- A diagnostic of the program, with the exit code 1.
abbrev pub IsRefusal : Diagnostic → Type 0
IsRefusal d = (d.exit_code ≡ 1) × (d.message ≢ out_of_fuel)

-- Fewer tokens are left than `n`, or there is a refusal.
abbrev pub Leaves {ℓ} : {A : Type ℓ} → ℕ → Result (A × Tokens) → Type 0
Leaves n (ok result) = length (result.1) < n
Leaves n (err d) = IsRefusal d

abbrev pub OnErr {ℓ} : {A : Type ℓ} → Result A → Type 0
OnErr (ok a) = Unit
OnErr (err d) = IsRefusal d

>>=-Leaves {ℓ κ} :
    {A : Type ℓ} {B : Type κ} (n k : ℕ) (m : Result (A × Tokens))
    (f : A × Tokens → Result (B × Tokens))
    → Leaves n m
    → ((a : A) (rest : Tokens) → length rest < n → Leaves k (f (a, rest)))
    → Leaves k (m >>= f)
>>=-Leaves n k (ok (a, rest)) f l h = h a rest l
>>=-Leaves n k (err d) f l h = l

check-Leaves {ℓ κ} :
    {A : Type ℓ} {B : Type κ} (k : ℕ) (m : Result A) (f : A → Result (B × Tokens))
    → OnErr m
    → ((a : A) → Leaves k (f a))
    → Leaves k (m >>= f)
check-Leaves k (ok a) f l h = h a
check-Leaves k (err d) f l h = l

>>=-OnErr {ℓ κ} :
    {A : Type ℓ} {B : Type κ} (m : Result A) (f : A → Result B)
    → OnErr m
    → ((a : A) → OnErr (f a))
    → OnErr (m >>= f)
>>=-OnErr (ok a) f l h = h a
>>=-OnErr (err d) f l h = l

OnErr-Leaves {ℓ} : {A : Type ℓ} (n : ℕ) (m : Result (A × Tokens)) → Leaves n m → OnErr m
OnErr-Leaves n (ok a) l = tt
OnErr-Leaves n (err d) l = l

bump_or-Leaves : (d : Diagnostic) (ts : Tokens) → IsRefusal d → Leaves (length ts) (bump_or d ts)
bump_or-Leaves d [] r = r
bump_or-Leaves d (token ∷ rest) r = omega arith

validate_numeric_argument-OnErr : (flag raw : Bytes) → OnErr (validate_numeric_argument flag raw)
unfolding validate_numeric_argument parse_numeric_argument invalid_numeric_argument
validate_numeric_argument-OnErr flag raw = grind arith

validate_time_argument-OnErr : (flag raw : Bytes) → OnErr (validate_time_argument flag raw)
unfolding validate_time_argument parse_time_comparison invalid_numeric_argument
validate_time_argument-OnErr flag raw = grind arith

type_filter_from-OnErr : (flag raw : Bytes) → OnErr (type_filter_from flag raw)
unfolding type_filter_from
type_filter_from-OnErr flag raw = grind arith

u32_or_invalid-OnErr : (flag raw : Bytes) → OnErr (u32_or_invalid flag raw)
unfolding invalid_numeric_argument
u32_or_invalid-OnErr flag raw = grind arith

take_os_string-Leaves : (flag : Bytes) (ts : Tokens) → Leaves (length ts) (take_os_string flag ts)
take_os_string-Leaves flag ts = bump_or-Leaves _ ts (refl, λ e. cc)

exec_arguments-Leaves : (ts : Tokens) → Leaves (length ts) (exec_arguments ts)
unfolding exec_arguments
exec_arguments-Leaves [] = (refl, λ e. cc)
exec_arguments-Leaves (token ∷ rest) =
    if_cases (Leaves (length (token ∷ rest))) (matches token ";") _ _ (omega arith) (
      if_cases (Leaves (length (token ∷ rest))) (matches token "+") _ _ (omega arith) (
        >>=-Leaves (length rest) (length (token ∷ rest)) (exec_arguments rest) _
          (exec_arguments-Leaves rest) λ _ left l. omega (arith, l)))

-- An argument that is taken, with a check behind it.
checked-Leaves {κ λ'} :
    {A : Type κ} {B : Type λ'} (flag : Bytes) (ts : Tokens) (check : Bytes → Result A)
    (make : Bytes → A → B)
    → ((raw : Bytes) → OnErr (check raw))
    → Leaves
        (suc (length ts))
        (take_os_string flag ts >>= λ (raw, rest). check raw >>= λ a. ok (make raw a, rest))
checked-Leaves flag ts check make h =
    >>=-Leaves (length ts) (suc (length ts)) (take_os_string flag ts) _
      (take_os_string-Leaves flag ts)
      λ raw rest l. check-Leaves (suc (length ts)) (check raw) _ (h raw) λ _. omega (arith, l)

take_arguments-Leaves :
    (token : Bytes) (atom : Atom) (ts : Tokens)
    → Leaves (suc (length ts)) (take_arguments token atom ts)
unfolding take_arguments take_exec_action
take_arguments-Leaves token (plain e) ts = omega arith
take_arguments-Leaves token (os_string flag make) ts =
    >>=-Leaves (length ts) (suc (length ts)) (take_os_string flag ts) _
      (take_os_string-Leaves flag ts) λ raw rest l. omega (arith, l)
take_arguments-Leaves token (u32 flag make) ts =
    checked-Leaves flag ts (u32_or_invalid flag) (λ _. make) (u32_or_invalid-OnErr flag)
take_arguments-Leaves token (numeric flag make) ts =
    checked-Leaves flag ts (validate_numeric_argument flag) (λ raw _. make raw)
      (validate_numeric_argument-OnErr flag)
take_arguments-Leaves token (time flag make) ts =
    checked-Leaves flag ts (validate_time_argument flag) (λ raw _. make raw)
      (validate_time_argument-OnErr flag)
take_arguments-Leaves token (type_filter flag make) ts =
    checked-Leaves flag ts (type_filter_from flag) (λ _. make) (type_filter_from-OnErr flag)
take_arguments-Leaves token (two_os_strings flag make) ts =
    >>=-Leaves (length ts) (suc (length ts)) (take_os_string flag ts) _
      (take_os_string-Leaves flag ts)
      λ first rest l.
        >>=-Leaves (length rest) (suc (length ts)) (take_os_string flag rest) _
          (take_os_string-Leaves flag rest) λ second left m. omega (arith, l, m)
take_arguments-Leaves token (exec_action chdir prompt) ts =
    >>=-Leaves (length ts) (suc (length ts)) (take_exec_action chdir prompt ts) _
      (>>=-Leaves (length ts) (length ts) (exec_arguments ts) _ (exec_arguments-Leaves ts)
        λ _ rest l. l)
      λ _ rest l. omega (arith, l)
take_arguments-Leaves token Atom.unsupported ts = (refl, λ e. cc)

-- A token at least is read.
parse_atom-Leaves : (ts : Tokens) → Leaves (length ts) (parse_atom ts)
unfolding parse_atom
parse_atom-Leaves [] = (refl, λ e. cc)
parse_atom-Leaves (token ∷ rest) = take_arguments-Leaves token (atom_of token) rest

close_group-Leaves : (e : Expr) (ts : Tokens) (n : ℕ) → length ts < n → Leaves n (close_group e ts)
close_group-Leaves e [] n l = (refl, λ e. cc)
close_group-Leaves e (token ∷ rest) n l =
    if_cases (Leaves n) (is_close token) _ _ (omega (arith, l)) (refl, λ e. cc)

length-bumped : (ts : Tokens) → length (bumped ts) ≤ length ts
length-bumped [] = omega arith
length-bumped (token ∷ rest) = omega arith

length-bumped-next_is :
    (test : Bytes → Bool) (ts : Tokens) → next_is test ts ≡ true → length (bumped ts) < length ts
length-bumped-next_is test [] e = cc
length-bumped-next_is test (token ∷ rest) e = omega arith

mutual
  unfolding parse_or_expression or_loop parse_and_expression and_loop parse_not_expression
      parse_primary

  parse_or_expression-Leaves :
      (fuel : ℕ) (ts : Tokens)
      → 4 * length ts + 4 ≤ fuel
      → Leaves (length ts) (parse_or_expression fuel ts)
  parse_or_expression-Leaves zero ts f = omega (arith, f)
  parse_or_expression-Leaves (suc fuel) ts f =
      >>=-Leaves (length ts) (length ts) (parse_and_expression fuel ts) _
        (parse_and_expression-Leaves fuel ts (omega (arith, f)))
        λ left rest l. or_loop-Leaves fuel left rest (length ts) (omega (arith, f, l)) l

  or_loop-Leaves :
      (fuel : ℕ) (left : Expr) (ts : Tokens) (n : ℕ)
      → 4 * length ts + 1 ≤ fuel
      → length ts < n
      → Leaves n (or_loop fuel left ts)
  or_loop-Leaves zero left ts n f l = omega (arith, f)
  or_loop-Leaves (suc fuel) left ts n f l =
      elim_known (Leaves n) (next_is is_or ts) _ _
        (λ e.
          let d : length (bumped ts) < length ts = length-bumped-next_is is_or ts e in
          >>=-Leaves (length (bumped ts)) n (parse_and_expression fuel (bumped ts)) _
            (parse_and_expression-Leaves fuel (bumped ts) (omega (arith, f, d)))
            λ right rest r.
              or_loop-Leaves fuel (either left right) rest n (omega (arith, f, d, r))
                (omega (arith, d, r, l)))
        λ _. l

  parse_and_expression-Leaves :
      (fuel : ℕ) (ts : Tokens)
      → 4 * length ts + 3 ≤ fuel
      → Leaves (length ts) (parse_and_expression fuel ts)
  parse_and_expression-Leaves zero ts f = omega (arith, f)
  parse_and_expression-Leaves (suc fuel) ts f =
      >>=-Leaves (length ts) (length ts) (parse_not_expression fuel ts) _
        (parse_not_expression-Leaves fuel ts (omega (arith, f)))
        λ first rest l.
          and_loop-Leaves fuel (expr first no_exprs) rest (length ts) (omega (arith, f, l)) l

  and_loop-Leaves :
      (fuel : ℕ) (items : Exprs) (ts : Tokens) (n : ℕ)
      → 4 * length ts + 3 ≤ fuel
      → length ts < n
      → Leaves n (and_loop fuel items ts)
  and_loop-Leaves zero items ts n f l = omega (arith, f)
  and_loop-Leaves (suc fuel) items ts n f l =
      let item : (left : Tokens)
          → length left ≤ length ts
          → Leaves n
              (parse_not_expression fuel left >>= λ (e, rest). and_loop fuel (push items e) rest) =
        λ left d.
          >>=-Leaves (length left) n (parse_not_expression fuel left) _
            (parse_not_expression-Leaves fuel left (omega (arith, f, d)))
            λ e rest r.
              and_loop-Leaves fuel (push items e) rest n (omega (arith, f, d, r))
                (omega (arith, d, r, l)) in
      elim_known (Leaves n) (next_is is_and ts) _ _ (λ _. item (bumped ts) (length-bumped ts))
        λ _. elim_known (Leaves n) (starts_primary ts) _ _ (λ _. item ts (omega arith)) λ _. l

  parse_not_expression-Leaves :
      (fuel : ℕ) (ts : Tokens)
      → 4 * length ts + 2 ≤ fuel
      → Leaves (length ts) (parse_not_expression fuel ts)
  parse_not_expression-Leaves zero ts f = omega (arith, f)
  parse_not_expression-Leaves (suc fuel) ts f =
      elim_known (Leaves (length ts)) (next_is is_not ts) _ _
        (λ e.
          let d : length (bumped ts) < length ts = length-bumped-next_is is_not ts e in
          >>=-Leaves (length (bumped ts)) (length ts) (parse_not_expression fuel (bumped ts)) _
            (parse_not_expression-Leaves fuel (bumped ts) (omega (arith, f, d)))
            λ _ rest r. omega (arith, d, r))
        λ _. parse_primary-Leaves fuel ts (omega (arith, f))

  parse_primary-Leaves :
      (fuel : ℕ) (ts : Tokens)
      → 4 * length ts + 1 ≤ fuel
      → Leaves (length ts) (parse_primary fuel ts)
  parse_primary-Leaves zero ts f = omega (arith, f)
  parse_primary-Leaves (suc fuel) ts f =
      elim_known (Leaves (length ts)) (next_is is_open ts) _ _
        (λ e.
          let d : length (bumped ts) < length ts = length-bumped-next_is is_open ts e in
          >>=-Leaves (length (bumped ts)) (length ts) (parse_or_expression fuel (bumped ts)) _
            (parse_or_expression-Leaves fuel (bumped ts) (omega (arith, f, d)))
            λ e rest r. close_group-Leaves e rest (length ts) (omega (arith, d, r)))
        λ _.
          elim_known (Leaves (length ts)) (next_is is_close ts) _ _ (λ _. (refl, λ e. cc))
            λ _. parse_atom-Leaves ts

expect_end-OnErr : (ts : Tokens) → OnErr (expect_end ts)
unfolding expect_end
expect_end-OnErr [] = tt
expect_end-OnErr (token ∷ rest) = (refl, λ e. cc)

parse_root-OnErr : (ts : Tokens) → OnErr (parse_root ts)
unfolding parse_root
parse_root-OnErr [] = tt
parse_root-OnErr (token ∷ rest) =
    >>=-OnErr (parse_or_expression (fuel_for (token ∷ rest)) (token ∷ rest)) _
      (OnErr-Leaves _ _ (parse_or_expression-Leaves _ (token ∷ rest) (omega arith)))
      λ read. >>=-OnErr (expect_end read.1) _ (expect_end-OnErr (read.1)) λ _. tt

-- Reading the arguments always comes to an end, whatever they are: it gives a command, or it refuses
-- them with a diagnostic of the program that has the exit code 1, and never for want of fuel.
pub parse_command-OnErr : (argv : Tokens) → OnErr (parse_command argv)
unfolding parse_command
parse_command-OnErr argv =
    let (_, behind) = global_options_of argv in
    >>=-OnErr {B = CommandAst} (parse_root ((split_paths behind).1)) _
      (parse_root-OnErr ((split_paths behind).1)) λ _. tt
