-- ===== src/Command/Parser.antt =====
-- Reading a command (src/parser.rs).
-- What a call leaves of the arguments is not a structural part of them, so each call costs a unit of
-- fuel; four units for each argument are enough.
use rushfind.Command.Ast.{
  Expr, Exprs, conjunction, either, negation, action, Action, no_exprs, expr, push, GlobalOption,
  CommandAst,
}
use rushfind.Command.Tokens.{Tokens, Reader, matches, next_is, bumped, starts_with_dash}
use rushfind.Command.Atoms.{parse_atom}
use rushfind.Prelude.{zero, true, false}
use rushfind.Entry.Types.{FollowMode}
use rushfind.Prelude.{
  suc, ◌+◌, length, none, some, ◌&&◌, [], ◌*◌, ◌∷◌, ◌||◌, Option, codes, not, if◌then◌else◌, ℕ,
  Bytes, Bool, List,
}
use rushfind.Diagnostics.{
  unexpected_close, unexpected_trailing_token, expected_close, out_of_fuel, parse, err, ◌>>=◌, ok,
  Result,
}

abbrev pub is_or : Bytes → Bool
is_or token = matches token "-o" || matches token "-or"

abbrev pub is_and : Bytes → Bool
is_and token = matches token "-a" || matches token "-and"

abbrev pub is_not : Bytes → Bool
is_not token = matches token "!" || matches token "-not"

abbrev pub is_open : Bytes → Bool
is_open token = matches token "("

abbrev pub is_close : Bytes → Bool
is_close token = matches token ")"

-- `starts_primary`
abbrev pub starts_primary : Tokens → Bool
starts_primary =
    next_is
      λ token. not (matches token ")") && not (matches token "-o") && not (matches token "-or")

-- The items of `parse_and_expression`, of which one alone stands for itself.
abbrev pub conjunction_of : Exprs → Expr
conjunction_of (expr e no_exprs) = e
conjunction_of items = conjunction items

-- The end of a group.
abbrev pub close_group : Expr → Reader Expr
close_group e ts = if next_is is_close ts then ok (e, bumped ts) else err (parse expected_close)

unfoldable mutual
  -- `parse_or_expression`, and its loop
  pub parse_or_expression : ℕ → Reader Expr
  parse_or_expression zero ts = err (parse out_of_fuel)
  parse_or_expression (suc fuel) ts =
      parse_and_expression fuel ts >>= λ (left, rest). or_loop fuel left rest

  pub or_loop : ℕ → Expr → Reader Expr
  or_loop zero left ts = err (parse out_of_fuel)
  or_loop (suc fuel) left ts = elim (next_is is_or ts) [
    | true ↦ parse_and_expression fuel (bumped ts) >>= λ (right, rest).
        or_loop fuel (either left right) rest
    | false ↦ ok (left, ts)
  ]

  -- `parse_and_expression`, and its loop
  pub parse_and_expression : ℕ → Reader Expr
  parse_and_expression zero ts = err (parse out_of_fuel)
  parse_and_expression (suc fuel) ts =
      parse_not_expression fuel ts >>= λ (first, rest). and_loop fuel (expr first no_exprs) rest

  pub and_loop : ℕ → Exprs → Reader Expr
  and_loop zero items ts = err (parse out_of_fuel)
  and_loop (suc fuel) items ts = elim (next_is is_and ts) [
    | true ↦ parse_not_expression fuel (bumped ts) >>= λ (item, rest).
        and_loop fuel (push items item) rest
    | false ↦ elim (starts_primary ts) [
      | true ↦ parse_not_expression fuel ts >>= λ (item, rest). and_loop fuel (push items item) rest
      | false ↦ ok (conjunction_of items, ts)
    ]
  ]

  pub parse_not_expression : ℕ → Reader Expr
  parse_not_expression zero ts = err (parse out_of_fuel)
  parse_not_expression (suc fuel) ts = elim (next_is is_not ts) [
    | true ↦ parse_not_expression fuel (bumped ts) >>= λ (e, rest). ok (negation e, rest)
    | false ↦ parse_primary fuel ts
  ]

  pub parse_primary : ℕ → Reader Expr
  parse_primary zero ts = err (parse out_of_fuel)
  parse_primary (suc fuel) ts = elim (next_is is_open ts) [
    | true ↦ parse_or_expression fuel (bumped ts) >>= λ (e, rest). close_group e rest
    | false ↦ elim (next_is is_close ts) [
      | true ↦ err (parse unexpected_close)
      | false ↦ parse_atom ts
    ]
  ]

unfoldable pub expect_end : Tokens → Result (Unit {0})
expect_end [] = ok tt
expect_end (token ∷ rest) = err (parse (unexpected_trailing_token token))

unfoldable pub is_expression_start : Bytes → Bool
unfolding starts_with_dash
is_expression_start arg =
    matches arg "!"
    || matches arg "("
    || matches arg ")"
    || matches arg "-a"
    || matches arg "-and"
    || matches arg "-o"
    || matches arg "-or"
    || matches arg "-not"
    || starts_with_dash arg

unfoldable pub parse_global_option : Bytes → Option GlobalOption
parse_global_option arg =
    if matches arg "-P"
    then some (GlobalOption.follow FollowMode.physical)
    else if matches arg "-H"
    then some (GlobalOption.follow FollowMode.command_line_only)
    else if matches arg "-L"
    then some (GlobalOption.follow FollowMode.logical)
    else if matches arg "-version" || matches arg "--version"
    then some GlobalOption.version
    else none

-- The options at the front, and the arguments behind them.
unfoldable pub global_options_of : Tokens → List GlobalOption × Tokens
unfolding parse_global_option
global_options_of [] = ([], [])
global_options_of (arg ∷ rest) =
    let (options, left) = global_options_of rest in
    elim (parse_global_option arg) [
      | some option ↦ (option ∷ options, left)
      | none ↦ ([], arg ∷ rest)
    ]

-- The arguments before the first that starts an expression, and the others.
unfoldable pub split_paths : Tokens → List Bytes × Tokens
unfolding is_expression_start
split_paths [] = ([], [])
split_paths (arg ∷ rest) =
    let (paths, left) = split_paths rest in
    if is_expression_start arg then ([], arg ∷ rest) else (arg ∷ paths, left)

abbrev pub paths_or_default : List Bytes → List Bytes
paths_or_default [] = codes "." ∷ []
paths_or_default (path ∷ paths) = path ∷ paths

-- The fuel that is enough for as many tokens.
abbrev pub fuel_for : Tokens → ℕ
fuel_for ts = 4 * length ts + 4

-- The expression behind the paths.
unfoldable pub parse_root : Tokens → Result Expr
unfolding parse_or_expression expect_end
parse_root [] = ok (action Action.print)
parse_root (token ∷ rest) =
    parse_or_expression (fuel_for (token ∷ rest)) (token ∷ rest) >>= λ (root, left).
    expect_end left >>= λ _. ok root

unfoldable pub parse_command : Tokens → Result CommandAst
unfolding global_options_of split_paths parse_root
parse_command argv =
    let (options, behind) = global_options_of argv in
    let (paths, expression) = split_paths behind in
    parse_root expression >>= λ root.
    ok (record { start_paths = paths_or_default paths; global_options = options; root = root })
