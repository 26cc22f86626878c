-- ===== src/Command/Whole.antt =====
-- A whole command that is written is read back (src/parser.rs).
use rushfind.Command.Ast.{
  GlobalOption, Expr, conjunction, either, negation, predicate, action, no_exprs, expr,
}
use rushfind.Command.Parser.{
  fuel_for, parse_or_expression, paths_or_default, expect_end, parse_command, global_options_of,
  split_paths, parse_root, parse_global_option, is_expression_start,
}
use rushfind.Command.Tokens.{next_is, Tokens, starts_with_dash}
use rushfind.Command.Printer.{
  action_tokens, predicate_tokens, is_either, or_word, is_compound, enclose, Spelling, expr_tokens,
  later_tokens, IsWritable,
}
use rushfind.Entry.Types.{FollowMode}
use rushfind.Prelude.{
  length, ap, subst, append-nil, if_cases, none, arith, refl, append_assoc, false, true, some, [],
  ◌++◌, not, ◌∷◌, ◌≡◌, codes, Bytes, Bool, all, List,
}
use rushfind.Command.AtomRoundTrip.{
  next_is-is_atom-action_tokens, next_is-is_atom-predicate_tokens, is_atom, starts_expression,
}
use rushfind.Diagnostics.{ok}
use rushfind.Command.RoundTrip.{parse_or_expression-expr_tokens}

abbrev pub option_token : GlobalOption → Bytes
option_token (GlobalOption.follow FollowMode.physical) = codes "-P"
option_token (GlobalOption.follow FollowMode.command_line_only) = codes "-H"
option_token (GlobalOption.follow FollowMode.logical) = codes "-L"
option_token GlobalOption.version = codes "-version"

abbrev pub option_tokens : List GlobalOption → Tokens
option_tokens [] = []
option_tokens (option ∷ options) = option_token option ∷ option_tokens options

abbrev pub is_path : Bytes → Bool
is_path arg = not (is_expression_start arg)

parse_global_option-option_token :
    (option : GlobalOption) → parse_global_option (option_token option) ≡ some option
unfolding parse_global_option
parse_global_option-option_token (GlobalOption.follow FollowMode.physical) = refl
parse_global_option-option_token (GlobalOption.follow FollowMode.command_line_only) = refl
parse_global_option-option_token (GlobalOption.follow FollowMode.logical) = refl
parse_global_option-option_token GlobalOption.version = refl

-- A path is no option.
parse_global_option-is_path :
    (arg : Bytes)
    → is_path arg ≡ true
    → starts_expression arg ≡ false
    → parse_global_option arg ≡ none
unfolding parse_global_option is_expression_start starts_with_dash
parse_global_option-is_path [] p n = refl
parse_global_option-is_path (c ∷ rest) p n = grind arith

next_is-enclose :
    (b : Bool) (ts rest : Tokens)
    → next_is starts_expression (ts ++ rest) ≡ true
    → next_is starts_expression (enclose b ts ++ rest) ≡ true
unfolding parse_global_option is_expression_start
next_is-enclose true ts rest h = refl
next_is-enclose false ts rest h = h

is_atom-starts_expression :
    (ts : Tokens) → next_is is_atom ts ≡ true → next_is starts_expression ts ≡ true
is_atom-starts_expression [] h = cc
is_atom-starts_expression (token ∷ ts) h = grind arith

mutual
  unfolding expr_tokens later_tokens IsWritable parse_global_option is_expression_start

  -- The tokens of an expression are no options and no paths.
  expr_tokens-starts :
      (s : Spelling) (e : Expr) (rest : Tokens)
      → IsWritable e
      → next_is starts_expression (expr_tokens s e ++ rest) ≡ true
  expr_tokens-starts s (conjunction no_exprs) rest w = absurd w
  expr_tokens-starts s (conjunction (expr first no_exprs)) rest w = absurd w
  expr_tokens-starts s (conjunction (expr first (expr second items))) rest w =
      let later = later_tokens s (expr second items) in
      rw (append_assoc (enclose (is_compound first) (expr_tokens s first)) later rest) (
        next_is-enclose (is_compound first) (expr_tokens s first) (later ++ rest)
          (expr_tokens-starts s first (later ++ rest) (w.0)))
  expr_tokens-starts s (either left right) rest w =
      let behind = or_word s ∷ enclose (is_either right) (expr_tokens s right) in
      rw (append_assoc (expr_tokens s left) behind rest)
        (expr_tokens-starts s left (behind ++ rest) (w.0))
  expr_tokens-starts s (negation e) rest w =
      if_cases (λ t. starts_expression t ≡ true) s.long_not (codes "-not") (codes "!") refl refl
  expr_tokens-starts s (predicate p) rest w =
      is_atom-starts_expression (predicate_tokens p ++ rest)
        (next_is-is_atom-predicate_tokens p rest)
  expr_tokens-starts s (action a) rest w =
      is_atom-starts_expression (action_tokens a ++ rest) (next_is-is_atom-action_tokens a rest)

split_paths-paths :
    (paths ts : Tokens)
    → all is_path paths ≡ true
    → next_is starts_expression ts ≡ true
    → split_paths (paths ++ ts) ≡ (paths, ts)
unfolding split_paths
split_paths-paths [] [] p n = refl
split_paths-paths [] (token ∷ ts) p n = grind arith
split_paths-paths (path ∷ paths) ts p n = grind (arith, split_paths-paths paths ts)

global_options_of-paths :
    (paths ts : Tokens)
    → all is_path paths ≡ true
    → next_is starts_expression ts ≡ true
    → global_options_of (paths ++ ts) ≡ ([], paths ++ ts)
unfolding global_options_of
global_options_of-paths [] [] p n = refl
global_options_of-paths [] (token ∷ ts) p n = grind arith
global_options_of-paths (path ∷ paths) ts p n = grind (arith, parse_global_option-is_path path)

global_options_of-option_tokens :
    (options : List GlobalOption) (ts : Tokens)
    → global_options_of ts ≡ ([], ts)
    → global_options_of (option_tokens options ++ ts) ≡ (options, ts)
unfolding global_options_of
global_options_of-option_tokens [] ts h = h
global_options_of-option_tokens (option ∷ options) ts h =
    grind
      (arith, global_options_of-option_tokens options ts h, parse_global_option-option_token option)

parse_root-reads :
    (e : Expr) (ts : Tokens)
    → next_is starts_expression ts ≡ true
    → parse_or_expression (fuel_for ts) ts ≡ ok (e, [])
    → parse_root ts ≡ ok e
unfolding parse_root expect_end
parse_root-reads e [] n h = cc
parse_root-reads e (token ∷ ts) n h = rw h refl

parse_root-expr_tokens :
    (s : Spelling) (e : Expr) → IsWritable e → parse_root (expr_tokens s e) ≡ ok e
parse_root-expr_tokens s e w =
    let same : expr_tokens s e ++ [] ≡ expr_tokens s e = append-nil (expr_tokens s e) in
    parse_root-reads e (expr_tokens s e)
      (subst (λ ts. next_is starts_expression ts ≡ true) same (expr_tokens-starts s e [] w))
      (subst (λ ts. parse_or_expression (fuel_for (expr_tokens s e)) ts ≡ ok (e, [])) same
        (parse_or_expression-expr_tokens s e [] (fuel_for (expr_tokens s e)) w refl
          (omega (arith, ap length same))))

-- A command that is written as options, paths and an expression, in any of the spellings, is read as
-- these options, these paths, or `.` where there are none, and this expression. No path may look like
-- the start of an expression, and the expression has to be one that a command line can write.
pub parse_command-expr_tokens :
    (s : Spelling) (options : List GlobalOption) (paths : Tokens) (e : Expr)
    → all is_path paths ≡ true
    → IsWritable e
    → parse_command (option_tokens options ++ (paths ++ expr_tokens s e))
      ≡ ok (record { start_paths = paths_or_default paths; global_options = options; root = e })
unfolding parse_command
parse_command-expr_tokens s options paths e p w =
    let n : next_is starts_expression (expr_tokens s e) ≡ true =
      subst (λ ts. next_is starts_expression ts ≡ true) (append-nil (expr_tokens s e))
        (expr_tokens-starts s e [] w) in
    rw
      (
        global_options_of-option_tokens options (paths ++ expr_tokens s e)
            (global_options_of-paths paths (expr_tokens s e) p n),
        split_paths-paths paths (expr_tokens s e) p n,
        parse_root-expr_tokens s e w,
      )
      refl
