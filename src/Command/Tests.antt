-- ===== src/Command/Tests.antt =====
-- Commands that the properties are applied to.
use rushfind.Command.Ast.{
  Expr, GlobalOption, Predicate, Action, conjunction, either, negation, predicate, action, no_exprs,
  expr,
}
use rushfind.Command.Parser.{is_expression_start, parse_command, parse_root}
use rushfind.Command.Printer.{Spelling, AndWord, expr_tokens, later_tokens, IsWritable, AreWritable}
use rushfind.Command.Ends.{OnErr, parse_command-OnErr}
use rushfind.Command.Whole.{option_tokens, parse_command-expr_tokens}
use rushfind.Entry.Types.{FollowMode}
use rushfind.Prelude.{true, refl, ◌++◌, [], ◌≡◌, ◌∷◌, arith, codes, false}
use rushfind.Diagnostics.{expected_close, parse, ok, err}
use rushfind.Command.Atoms.{parse_atom}

abbrev terse : Spelling
terse = record { long_or = false; long_not = false; and_word = AndWord.implied }

-- `! ( -name a -o -maxdepth 3 ) -exec rm {} +`
abbrev cleaning : Expr
cleaning = conjunction (
    expr
      (negation
        (either (predicate (Predicate.name (codes "a") false)) (predicate (Predicate.max_depth 3))))
      (expr (action (Action.exec (codes "rm" ∷ codes "{}" ∷ []) true)) no_exprs))

cleaning-tokens :
    expr_tokens terse cleaning
    ≡ codes "!"
      ∷ codes "("
      ∷ codes "-name"
      ∷ codes "a"
      ∷ codes "-o"
      ∷ codes "-maxdepth"
      ∷ codes "3"
      ∷ codes ")"
      ∷ codes "-exec"
      ∷ codes "rm"
      ∷ codes "{}"
      ∷ codes "+"
      ∷ []
unfolding expr_tokens later_tokens
cleaning-tokens = refl

cleaning-IsWritable : IsWritable cleaning
unfolding IsWritable AreWritable
cleaning-IsWritable = ((tt, omega arith), (refl, tt))

parse_command-expr_tokens_example :
    parse_command (
      option_tokens (GlobalOption.follow FollowMode.logical ∷ [])
      ++ ((codes "src" ∷ []) ++ expr_tokens terse cleaning))
    ≡ ok (record {
      start_paths = codes "src" ∷ [];
      global_options = GlobalOption.follow FollowMode.logical ∷ [];
      root = cleaning;
    })
unfolding is_expression_start
parse_command-expr_tokens_example =
    parse_command-expr_tokens terse (GlobalOption.follow FollowMode.logical ∷ []) (codes "src" ∷ [])
      cleaning refl cleaning-IsWritable

parse_command-OnErr_example : OnErr (parse_command (codes "(" ∷ codes "-print" ∷ []))
parse_command-OnErr_example = parse_command-OnErr (codes "(" ∷ codes "-print" ∷ [])

unclosed : parse_command (codes "(" ∷ codes "-print" ∷ []) ≡ err (parse expected_close)
unfolding parse_command parse_atom
unclosed = refl

left_associative :
    parse_root (codes "-true" ∷ codes "-o" ∷ codes "-false" ∷ codes "-o" ∷ codes "-print" ∷ [])
    ≡ ok (
        either
          (either (predicate Predicate.always) (predicate Predicate.never))
          (action Action.print))
unfolding parse_root parse_atom
left_associative = refl
