-- ===== src/Command/AtomRoundTrip.antt =====
-- An atom that is written is read back (src/parser.rs).
use rushfind.Command.Atoms.{
  u32_or_invalid, type_filter_from, exec_arguments, parse_atom, atom_of, middle_atom_of,
  later_atom_of, parse_newerxy_flag, take_arguments, take_exec_action,
}
use rushfind.Command.Parser.{
  is_expression_start, parse_global_option, is_or, is_and, is_not, is_open, is_close,
}
use rushfind.Command.Ast.{predicate, action, Predicate, Action}
use rushfind.Prelude.{
  none, some, some, ℕ, arith, [], ◌∷◌, codes, ◌^◌, if◌then◌else◌, false, refl, true, ◌≡◌, ◌&&◌, not,
  all, ◌++◌, Bool, List, Bytes, ◌<◌,
}
use rushfind.Diagnostics.{ok}
use rushfind.Command.Printer.{
  is_argument, type_letter, IsWritableAction, IsWritablePredicate, predicate_tokens, action_tokens,
}
use rushfind.Command.Tokens.{starts_with_dash, next_is, Tokens}
use rushfind.Plan.Types.{FileTypeFilter}
use rushfind.Std.Decimal.{decimal, from_str_radix-decimal}

type_filter_from-type_letter :
    (flag : Bytes) (t : FileTypeFilter) → type_filter_from flag (type_letter t) ≡ ok t
unfolding type_filter_from
type_filter_from-type_letter flag FileTypeFilter.file = refl
type_filter_from-type_letter flag FileTypeFilter.directory = refl
type_filter_from-type_letter flag FileTypeFilter.symlink = refl
type_filter_from-type_letter flag FileTypeFilter.block = refl
type_filter_from-type_letter flag FileTypeFilter.character = refl
type_filter_from-type_letter flag FileTypeFilter.fifo = refl
type_filter_from-type_letter flag FileTypeFilter.socket = refl

exec_arguments-exec_tokens :
    (argv : List Bytes) (batch : Bool) (rest : Tokens)
    → all is_argument argv ≡ true
    → exec_arguments ((argv ++ (if batch then codes "+" else codes ";") ∷ []) ++ rest)
      ≡ ok ((argv, batch), rest)
unfolding exec_arguments
exec_arguments-exec_tokens [] true rest w = refl
exec_arguments-exec_tokens [] false rest w = refl
exec_arguments-exec_tokens (token ∷ argv) batch rest w =
    grind (arith, exec_arguments-exec_tokens argv batch rest)

u32_or_invalid-decimal :
    (flag : Bytes) (n : ℕ) → n < 2 ^ 32 → u32_or_invalid flag (decimal n) ≡ ok n
u32_or_invalid-decimal flag n w = ground (arith, from_str_radix-decimal (2 ^ 32) n w)

pub parse_atom-predicate_tokens :
    (p : Predicate) (rest : Tokens)
    → IsWritablePredicate p
    → parse_atom (predicate_tokens p ++ rest) ≡ ok (predicate p, rest)
unfolding parse_atom atom_of middle_atom_of later_atom_of parse_newerxy_flag take_arguments
    predicate_tokens IsWritablePredicate
parse_atom-predicate_tokens (Predicate.max_depth n) rest w =
    rw (u32_or_invalid-decimal (codes "-maxdepth") n w, take_arguments) refl
parse_atom-predicate_tokens (Predicate.min_depth n) rest w =
    rw (u32_or_invalid-decimal (codes "-mindepth") n w, take_arguments) refl
parse_atom-predicate_tokens Predicate.depth rest w = refl
parse_atom-predicate_tokens Predicate.prune rest w = refl
parse_atom-predicate_tokens Predicate.x_dev rest w = refl
parse_atom-predicate_tokens Predicate.readable rest w = refl
parse_atom-predicate_tokens Predicate.writable rest w = refl
parse_atom-predicate_tokens Predicate.executable rest w = refl
parse_atom-predicate_tokens Predicate.no_user rest w = refl
parse_atom-predicate_tokens Predicate.no_group rest w = refl
parse_atom-predicate_tokens Predicate.is_empty rest w = refl
parse_atom-predicate_tokens Predicate.day_start rest w = refl
parse_atom-predicate_tokens Predicate.always rest w = refl
parse_atom-predicate_tokens Predicate.never rest w = refl
parse_atom-predicate_tokens (Predicate.name raw false) rest w = refl
parse_atom-predicate_tokens (Predicate.name raw true) rest w = refl
parse_atom-predicate_tokens (Predicate.path raw false) rest w = refl
parse_atom-predicate_tokens (Predicate.path raw true) rest w = refl
parse_atom-predicate_tokens (Predicate.regex raw false) rest w = refl
parse_atom-predicate_tokens (Predicate.regex raw true) rest w = refl
parse_atom-predicate_tokens (Predicate.l_name raw false) rest w = refl
parse_atom-predicate_tokens (Predicate.l_name raw true) rest w = refl
parse_atom-predicate_tokens (Predicate.regex_type raw) rest w = refl
parse_atom-predicate_tokens (Predicate.fs_type raw) rest w = refl
parse_atom-predicate_tokens (Predicate.same_file raw) rest w = refl
parse_atom-predicate_tokens (Predicate.user raw) rest w = refl
parse_atom-predicate_tokens (Predicate.group raw) rest w = refl
parse_atom-predicate_tokens (Predicate.owner raw) rest w = refl
parse_atom-predicate_tokens (Predicate.owner_sid raw) rest w = refl
parse_atom-predicate_tokens (Predicate.group_sid raw) rest w = refl
parse_atom-predicate_tokens (Predicate.perm raw) rest w = refl
parse_atom-predicate_tokens (Predicate.flags raw) rest w = refl
parse_atom-predicate_tokens (Predicate.reparse_type raw) rest w = refl
parse_atom-predicate_tokens (Predicate.size raw) rest w = refl
parse_atom-predicate_tokens (Predicate.newer raw) rest w = refl
parse_atom-predicate_tokens (Predicate.a_newer raw) rest w = refl
parse_atom-predicate_tokens (Predicate.c_newer raw) rest w = refl
parse_atom-predicate_tokens (Predicate.inum raw) rest w = rw w refl
parse_atom-predicate_tokens (Predicate.links raw) rest w = rw w refl
parse_atom-predicate_tokens (Predicate.uid raw) rest w = rw w refl
parse_atom-predicate_tokens (Predicate.gid raw) rest w = rw w refl
parse_atom-predicate_tokens (Predicate.used raw) rest w = rw w refl
parse_atom-predicate_tokens (Predicate.a_time raw) rest w = rw w refl
parse_atom-predicate_tokens (Predicate.c_time raw) rest w = rw w refl
parse_atom-predicate_tokens (Predicate.m_time raw) rest w = rw w refl
parse_atom-predicate_tokens (Predicate.a_min raw) rest w = rw w refl
parse_atom-predicate_tokens (Predicate.c_min raw) rest w = rw w refl
parse_atom-predicate_tokens (Predicate.m_min raw) rest w = rw w refl
parse_atom-predicate_tokens (Predicate.newer_xy current reference raw) rest w = refl
parse_atom-predicate_tokens (Predicate.type_is t) rest w =
    rw (type_filter_from-type_letter (codes "-type") t) refl
parse_atom-predicate_tokens (Predicate.x_type_is t) rest w =
    rw (type_filter_from-type_letter (codes "-xtype") t) refl

pub parse_atom-action_tokens :
    (a : Action) (rest : Tokens)
    → IsWritableAction a
    → parse_atom (action_tokens a ++ rest) ≡ ok (action a, rest)
unfolding parse_atom atom_of middle_atom_of later_atom_of parse_newerxy_flag take_arguments
    take_exec_action action_tokens IsWritableAction
parse_atom-action_tokens Action.print rest w = refl
parse_atom-action_tokens Action.print0 rest w = refl
parse_atom-action_tokens Action.ls rest w = refl
parse_atom-action_tokens Action.quit rest w = refl
parse_atom-action_tokens Action.delete rest w = refl
parse_atom-action_tokens (Action.printf raw) rest w = refl
parse_atom-action_tokens (Action.f_print raw) rest w = refl
parse_atom-action_tokens (Action.f_print0 raw) rest w = refl
parse_atom-action_tokens (Action.fls raw) rest w = refl
parse_atom-action_tokens (Action.f_printf path format) rest w = refl
parse_atom-action_tokens (Action.exec argv batch) rest w =
    rw (exec_arguments-exec_tokens argv batch rest w) refl
parse_atom-action_tokens (Action.exec_dir argv batch) rest w =
    rw (exec_arguments-exec_tokens argv batch rest w) refl
parse_atom-action_tokens (Action.confirm argv batch) rest w =
    rw (exec_arguments-exec_tokens argv batch rest w) refl
parse_atom-action_tokens (Action.confirm_dir argv batch) rest w =
    rw (exec_arguments-exec_tokens argv batch rest w) refl

-- A token that is no global option and no path.
abbrev pub starts_expression : Bytes → Bool
starts_expression token = elim (parse_global_option token) [
  | some option ↦ false
  | none ↦ is_expression_start token
]

-- A token that opens nothing but an atom.
abbrev pub is_atom : Bytes → Bool
is_atom token =
    not (is_or token)
    && not (is_and token)
    && not (is_not token)
    && not (is_open token)
    && not (is_close token)
    && starts_expression token

pub next_is-is_atom-predicate_tokens :
    (p : Predicate) (rest : Tokens) → next_is is_atom (predicate_tokens p ++ rest) ≡ true
unfolding parse_global_option is_expression_start starts_with_dash predicate_tokens
next_is-is_atom-predicate_tokens (Predicate.max_depth n) rest = refl
next_is-is_atom-predicate_tokens (Predicate.min_depth n) rest = refl
next_is-is_atom-predicate_tokens Predicate.depth rest = refl
next_is-is_atom-predicate_tokens Predicate.prune rest = refl
next_is-is_atom-predicate_tokens Predicate.x_dev rest = refl
next_is-is_atom-predicate_tokens Predicate.readable rest = refl
next_is-is_atom-predicate_tokens Predicate.writable rest = refl
next_is-is_atom-predicate_tokens Predicate.executable rest = refl
next_is-is_atom-predicate_tokens Predicate.no_user rest = refl
next_is-is_atom-predicate_tokens Predicate.no_group rest = refl
next_is-is_atom-predicate_tokens Predicate.is_empty rest = refl
next_is-is_atom-predicate_tokens Predicate.day_start rest = refl
next_is-is_atom-predicate_tokens Predicate.always rest = refl
next_is-is_atom-predicate_tokens Predicate.never rest = refl
next_is-is_atom-predicate_tokens (Predicate.name raw false) rest = refl
next_is-is_atom-predicate_tokens (Predicate.name raw true) rest = refl
next_is-is_atom-predicate_tokens (Predicate.path raw false) rest = refl
next_is-is_atom-predicate_tokens (Predicate.path raw true) rest = refl
next_is-is_atom-predicate_tokens (Predicate.regex raw false) rest = refl
next_is-is_atom-predicate_tokens (Predicate.regex raw true) rest = refl
next_is-is_atom-predicate_tokens (Predicate.l_name raw false) rest = refl
next_is-is_atom-predicate_tokens (Predicate.l_name raw true) rest = refl
next_is-is_atom-predicate_tokens (Predicate.regex_type raw) rest = refl
next_is-is_atom-predicate_tokens (Predicate.fs_type raw) rest = refl
next_is-is_atom-predicate_tokens (Predicate.same_file raw) rest = refl
next_is-is_atom-predicate_tokens (Predicate.user raw) rest = refl
next_is-is_atom-predicate_tokens (Predicate.group raw) rest = refl
next_is-is_atom-predicate_tokens (Predicate.owner raw) rest = refl
next_is-is_atom-predicate_tokens (Predicate.owner_sid raw) rest = refl
next_is-is_atom-predicate_tokens (Predicate.group_sid raw) rest = refl
next_is-is_atom-predicate_tokens (Predicate.perm raw) rest = refl
next_is-is_atom-predicate_tokens (Predicate.flags raw) rest = refl
next_is-is_atom-predicate_tokens (Predicate.reparse_type raw) rest = refl
next_is-is_atom-predicate_tokens (Predicate.size raw) rest = refl
next_is-is_atom-predicate_tokens (Predicate.newer raw) rest = refl
next_is-is_atom-predicate_tokens (Predicate.a_newer raw) rest = refl
next_is-is_atom-predicate_tokens (Predicate.c_newer raw) rest = refl
next_is-is_atom-predicate_tokens (Predicate.inum raw) rest = refl
next_is-is_atom-predicate_tokens (Predicate.links raw) rest = refl
next_is-is_atom-predicate_tokens (Predicate.uid raw) rest = refl
next_is-is_atom-predicate_tokens (Predicate.gid raw) rest = refl
next_is-is_atom-predicate_tokens (Predicate.used raw) rest = refl
next_is-is_atom-predicate_tokens (Predicate.a_time raw) rest = refl
next_is-is_atom-predicate_tokens (Predicate.c_time raw) rest = refl
next_is-is_atom-predicate_tokens (Predicate.m_time raw) rest = refl
next_is-is_atom-predicate_tokens (Predicate.a_min raw) rest = refl
next_is-is_atom-predicate_tokens (Predicate.c_min raw) rest = refl
next_is-is_atom-predicate_tokens (Predicate.m_min raw) rest = refl
next_is-is_atom-predicate_tokens (Predicate.newer_xy current reference raw) rest = refl
next_is-is_atom-predicate_tokens (Predicate.type_is t) rest = refl
next_is-is_atom-predicate_tokens (Predicate.x_type_is t) rest = refl

pub next_is-is_atom-action_tokens :
    (a : Action) (rest : Tokens) → next_is is_atom (action_tokens a ++ rest) ≡ true
unfolding parse_global_option is_expression_start starts_with_dash action_tokens
next_is-is_atom-action_tokens Action.print rest = refl
next_is-is_atom-action_tokens Action.print0 rest = refl
next_is-is_atom-action_tokens Action.ls rest = refl
next_is-is_atom-action_tokens Action.quit rest = refl
next_is-is_atom-action_tokens Action.delete rest = refl
next_is-is_atom-action_tokens (Action.printf raw) rest = refl
next_is-is_atom-action_tokens (Action.f_print raw) rest = refl
next_is-is_atom-action_tokens (Action.f_print0 raw) rest = refl
next_is-is_atom-action_tokens (Action.fls raw) rest = refl
next_is-is_atom-action_tokens (Action.f_printf path format) rest = refl
next_is-is_atom-action_tokens (Action.exec argv batch) rest = refl
next_is-is_atom-action_tokens (Action.exec_dir argv batch) rest = refl
next_is-is_atom-action_tokens (Action.confirm argv batch) rest = refl
next_is-is_atom-action_tokens (Action.confirm_dir argv batch) rest = refl
