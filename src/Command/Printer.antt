-- ===== src/Command/Printer.antt =====
-- Writing an expression as arguments, with parentheses where the parser needs them (src/parser.rs,
-- src/ast.rs).
use rushfind.Command.Ast.{
  Predicate, Action, Expr, Exprs, conjunction, either, negation, predicate, action, no_exprs, expr,
}
use rushfind.Command.Tokens.{Tokens, matches}
use rushfind.Plan.Types.{FileTypeFilter}
use rushfind.Prelude.{
  false, ◌^◌, List, ◌&&◌, ◌++◌, not, [], ◌<◌, if◌then◌else◌, true, ◌∷◌, String, ◌≡◌, codes, all,
  Bytes, Bool,
}
use rushfind.Std.Decimal.{decimal}
use rushfind.Numeric.Comparison.{validate_numeric_argument}
use rushfind.Diagnostics.{ok}
use rushfind.Time.Amount.{validate_time_argument}

abbrev pub one : String → Tokens
one flag = codes flag ∷ []

abbrev pub two : String → Bytes → Tokens
two flag raw = codes flag ∷ raw ∷ []

abbrev pub cased : Bool → String → String → Bytes → Tokens
cased case_insensitive sensitive insensitive raw =
    (if case_insensitive then codes insensitive else codes sensitive) ∷ raw ∷ []

abbrev pub type_letter : FileTypeFilter → Bytes
type_letter FileTypeFilter.file = codes "f"
type_letter FileTypeFilter.directory = codes "d"
type_letter FileTypeFilter.symlink = codes "l"
type_letter FileTypeFilter.block = codes "b"
type_letter FileTypeFilter.character = codes "c"
type_letter FileTypeFilter.fifo = codes "p"
type_letter FileTypeFilter.socket = codes "s"

abbrev pub exec_tokens : String → List Bytes → Bool → Tokens
exec_tokens flag argv batch = codes flag ∷ argv ++ (if batch then codes "+" else codes ";") ∷ []

unfoldable pub predicate_tokens : Predicate → Tokens
unfolding decimal
predicate_tokens (Predicate.max_depth n) = two "-maxdepth" (decimal n)
predicate_tokens (Predicate.min_depth n) = two "-mindepth" (decimal n)
predicate_tokens Predicate.depth = one "-depth"
predicate_tokens Predicate.prune = one "-prune"
predicate_tokens Predicate.x_dev = one "-xdev"
predicate_tokens Predicate.readable = one "-readable"
predicate_tokens Predicate.writable = one "-writable"
predicate_tokens Predicate.executable = one "-executable"
predicate_tokens Predicate.no_user = one "-nouser"
predicate_tokens Predicate.no_group = one "-nogroup"
predicate_tokens Predicate.is_empty = one "-empty"
predicate_tokens Predicate.day_start = one "-daystart"
predicate_tokens Predicate.always = one "-true"
predicate_tokens Predicate.never = one "-false"
predicate_tokens (Predicate.name raw false) = two "-name" raw
predicate_tokens (Predicate.name raw true) = two "-iname" raw
predicate_tokens (Predicate.path raw false) = two "-path" raw
predicate_tokens (Predicate.path raw true) = two "-ipath" raw
predicate_tokens (Predicate.regex raw false) = two "-regex" raw
predicate_tokens (Predicate.regex raw true) = two "-iregex" raw
predicate_tokens (Predicate.l_name raw false) = two "-lname" raw
predicate_tokens (Predicate.l_name raw true) = two "-ilname" raw
predicate_tokens (Predicate.regex_type raw) = two "-regextype" raw
predicate_tokens (Predicate.fs_type raw) = two "-fstype" raw
predicate_tokens (Predicate.same_file raw) = two "-samefile" raw
predicate_tokens (Predicate.user raw) = two "-user" raw
predicate_tokens (Predicate.group raw) = two "-group" raw
predicate_tokens (Predicate.owner raw) = two "-owner" raw
predicate_tokens (Predicate.owner_sid raw) = two "-owner-sid" raw
predicate_tokens (Predicate.group_sid raw) = two "-group-sid" raw
predicate_tokens (Predicate.perm raw) = two "-perm" raw
predicate_tokens (Predicate.flags raw) = two "-flags" raw
predicate_tokens (Predicate.reparse_type raw) = two "-reparse-type" raw
predicate_tokens (Predicate.size raw) = two "-size" raw
predicate_tokens (Predicate.newer raw) = two "-newer" raw
predicate_tokens (Predicate.a_newer raw) = two "-anewer" raw
predicate_tokens (Predicate.c_newer raw) = two "-cnewer" raw
predicate_tokens (Predicate.inum raw) = two "-inum" raw
predicate_tokens (Predicate.links raw) = two "-links" raw
predicate_tokens (Predicate.uid raw) = two "-uid" raw
predicate_tokens (Predicate.gid raw) = two "-gid" raw
predicate_tokens (Predicate.used raw) = two "-used" raw
predicate_tokens (Predicate.a_time raw) = two "-atime" raw
predicate_tokens (Predicate.c_time raw) = two "-ctime" raw
predicate_tokens (Predicate.m_time raw) = two "-mtime" raw
predicate_tokens (Predicate.a_min raw) = two "-amin" raw
predicate_tokens (Predicate.c_min raw) = two "-cmin" raw
predicate_tokens (Predicate.m_min raw) = two "-mmin" raw
predicate_tokens (Predicate.newer_xy current reference raw) =
    (codes "-newer" ++ current ∷ reference ∷ []) ∷ raw ∷ []
predicate_tokens (Predicate.type_is t) = two "-type" (type_letter t)
predicate_tokens (Predicate.x_type_is t) = two "-xtype" (type_letter t)

unfoldable pub action_tokens : Action → Tokens
action_tokens Action.print = one "-print"
action_tokens Action.print0 = one "-print0"
action_tokens Action.ls = one "-ls"
action_tokens Action.quit = one "-quit"
action_tokens Action.delete = one "-delete"
action_tokens (Action.printf raw) = two "-printf" raw
action_tokens (Action.f_print raw) = two "-fprint" raw
action_tokens (Action.f_print0 raw) = two "-fprint0" raw
action_tokens (Action.fls raw) = two "-fls" raw
action_tokens (Action.f_printf path format) = codes "-fprintf" ∷ path ∷ format ∷ []
action_tokens (Action.exec argv batch) = exec_tokens "-exec" argv batch
action_tokens (Action.exec_dir argv batch) = exec_tokens "-execdir" argv batch
action_tokens (Action.confirm argv batch) = exec_tokens "-ok" argv batch
action_tokens (Action.confirm_dir argv batch) = exec_tokens "-okdir" argv batch

-- How to write the words that have two forms, and whether to write the word between two items.
pub data AndWord : Type 0 where
  implied short long : AndWord

pub record Spelling : Type 0 where
  pub long_or : Bool
  pub long_not : Bool
  pub and_word : AndWord

abbrev pub or_word : Spelling → Bytes
or_word s = if s.long_or then codes "-or" else codes "-o"

abbrev pub not_word : Spelling → Bytes
not_word s = if s.long_not then codes "-not" else codes "!"

abbrev pub and_tokens : AndWord → Tokens
and_tokens implied = []
and_tokens short = one "-a"
and_tokens long = one "-and"

abbrev pub enclose : Bool → Tokens → Tokens
enclose true ts = codes "(" ∷ ts ++ codes ")" ∷ []
enclose false ts = ts

-- What has to be enclosed as an operand of `-a`, and as one of `!`.
abbrev pub is_either : Expr → Bool
is_either (either left right) = true
is_either _ = false

abbrev pub is_compound : Expr → Bool
is_compound (either left right) = true
is_compound (conjunction items) = true
is_compound _ = false

module _ (s : Spelling) where
  unfoldable mutual
    unfolding predicate_tokens action_tokens

    pub expr_tokens : Expr → Tokens
    expr_tokens (conjunction no_exprs) = []
    expr_tokens (conjunction (expr first items)) =
        enclose (is_compound first) (expr_tokens first) ++ later_tokens items
    expr_tokens (either left right) =
        expr_tokens left ++ or_word s ∷ enclose (is_either right) (expr_tokens right)
    expr_tokens (negation e) = not_word s ∷ enclose (is_compound e) (expr_tokens e)
    expr_tokens (predicate p) = predicate_tokens p
    expr_tokens (action a) = action_tokens a

    pub later_tokens : Exprs → Tokens
    later_tokens no_exprs = []
    later_tokens (expr e items) =
        and_tokens s.and_word ++ (enclose (is_compound e) (expr_tokens e) ++ later_tokens items)

-- The expressions that a command line can write: a conjunction has two items at least, numbers are in
-- range, numeric and time arguments are valid, and no argument of a command ends it.
abbrev pub is_argument : Bytes → Bool
is_argument token = not (matches token ";") && not (matches token "+")

unfoldable pub IsWritablePredicate : Predicate → Type 0
IsWritablePredicate (Predicate.max_depth n) = n < 2 ^ 32
IsWritablePredicate (Predicate.min_depth n) = n < 2 ^ 32
IsWritablePredicate (Predicate.inum raw) = validate_numeric_argument (codes "-inum") raw ≡ ok tt
IsWritablePredicate (Predicate.links raw) = validate_numeric_argument (codes "-links") raw ≡ ok tt
IsWritablePredicate (Predicate.uid raw) = validate_numeric_argument (codes "-uid") raw ≡ ok tt
IsWritablePredicate (Predicate.gid raw) = validate_numeric_argument (codes "-gid") raw ≡ ok tt
IsWritablePredicate (Predicate.used raw) = validate_time_argument (codes "-used") raw ≡ ok tt
IsWritablePredicate (Predicate.a_time raw) = validate_time_argument (codes "-atime") raw ≡ ok tt
IsWritablePredicate (Predicate.c_time raw) = validate_time_argument (codes "-ctime") raw ≡ ok tt
IsWritablePredicate (Predicate.m_time raw) = validate_time_argument (codes "-mtime") raw ≡ ok tt
IsWritablePredicate (Predicate.a_min raw) = validate_time_argument (codes "-amin") raw ≡ ok tt
IsWritablePredicate (Predicate.c_min raw) = validate_time_argument (codes "-cmin") raw ≡ ok tt
IsWritablePredicate (Predicate.m_min raw) = validate_time_argument (codes "-mmin") raw ≡ ok tt
IsWritablePredicate _ = Unit

unfoldable pub IsWritableAction : Action → Type 0
IsWritableAction (Action.exec argv batch) = all is_argument argv ≡ true
IsWritableAction (Action.exec_dir argv batch) = all is_argument argv ≡ true
IsWritableAction (Action.confirm argv batch) = all is_argument argv ≡ true
IsWritableAction (Action.confirm_dir argv batch) = all is_argument argv ≡ true
IsWritableAction _ = Unit

unfoldable mutual
  unfolding IsWritablePredicate IsWritableAction

  pub IsWritable : Expr → Type 0
  IsWritable (conjunction no_exprs) = ⊥
  IsWritable (conjunction (expr first no_exprs)) = ⊥
  IsWritable (conjunction (expr first (expr second items))) =
      IsWritable first × AreWritable (expr second items)
  IsWritable (either left right) = IsWritable left × IsWritable right
  IsWritable (negation e) = IsWritable e
  IsWritable (predicate p) = IsWritablePredicate p
  IsWritable (action a) = IsWritableAction a

  pub AreWritable : Exprs → Type 0
  AreWritable no_exprs = Unit
  AreWritable (expr e items) = IsWritable e × AreWritable items
