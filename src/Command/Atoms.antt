-- ===== src/Command/Atoms.antt =====
-- A predicate or an action with its arguments (src/parser.rs, `parse_atom` and what it calls).
use rushfind.Command.Ast.{Expr, predicate, action, Predicate, Action}
use rushfind.Numeric.Comparison.{invalid_numeric_argument}
use rushfind.Command.Tokens.{Reader, matches, bump_or}
use rushfind.Plan.Types.{FileTypeFilter}
use rushfind.Diagnostics.{
  unsupported_token, unsupported_type, unterminated_exec, expected_predicate_or_action, Result,
  missing_argument, err, ◌>>=◌, ok, parse,
}
use rushfind.Prelude.{
  none, true, [], bytes_eq, false, ◌||◌, ◌∷◌, codes, String, some, ℕ, if◌then◌else◌, Option, List,
  Bytes, Bool,
}
use rushfind.Numeric.Comparison.{validate_numeric_argument}
use rushfind.Std.Int.{parse_u32}
use rushfind.Time.Amount.{validate_time_argument}

-- What a token asks of the arguments behind it, with the flag that a message names.
pub data Atom : Type 0 where
  plain : Expr → Atom
  os_string : Bytes → (Bytes → Expr) → Atom
  u32 : Bytes → (ℕ → Expr) → Atom
  numeric time : Bytes → (Bytes → Expr) → Atom
  type_filter : Bytes → (FileTypeFilter → Expr) → Atom
  two_os_strings : Bytes → (Bytes → Bytes → Expr) → Atom
  exec_action : Bool → Bool → Atom
  unsupported : Atom

-- `parse_newerxy_flag`
unfoldable pub parse_newerxy_flag : Bytes → Option (ℕ × ℕ)
parse_newerxy_flag (a ∷ b ∷ c ∷ d ∷ e ∷ f ∷ current ∷ reference ∷ []) =
    if bytes_eq (a ∷ b ∷ c ∷ d ∷ e ∷ f ∷ []) (codes "-newer")
    then some (current, reference)
    else none
parse_newerxy_flag _ = none

abbrev flag_of : String → (Bytes → Predicate) → Atom
flag_of flag make = os_string (codes flag) λ raw. predicate (make raw)

abbrev numeric_of : String → (Bytes → Predicate) → Atom
numeric_of flag make = numeric (codes flag) λ raw. predicate (make raw)

abbrev time_of : String → (Bytes → Predicate) → Atom
time_of flag make = time (codes flag) λ raw. predicate (make raw)

-- The arms from `-daystart` on.
unfoldable pub later_atom_of : Bytes → Atom
later_atom_of token =
    if matches token "-daystart"
    then plain (predicate Predicate.day_start)
    else if matches token "-type"
    then type_filter (codes "-type") (λ t. predicate (Predicate.type_is t))
    else if matches token "-xtype"
    then type_filter (codes "-xtype") (λ t. predicate (Predicate.x_type_is t))
    else if matches token "-true"
    then plain (predicate Predicate.always)
    else if matches token "-false"
    then plain (predicate Predicate.never)
    else if matches token "-print"
    then plain (action Action.print)
    else if matches token "-print0"
    then plain (action Action.print0)
    else if matches token "-printf"
    then os_string (codes "-printf") (λ format. action (Action.printf format))
    else if matches token "-fprint"
    then os_string (codes "-fprint") (λ path. action (Action.f_print path))
    else if matches token "-fprint0"
    then os_string (codes "-fprint0") (λ path. action (Action.f_print0 path))
    else if matches token "-fprintf"
    then two_os_strings (codes "-fprintf") (λ path format. action (Action.f_printf path format))
    else if matches token "-ls"
    then plain (action Action.ls)
    else if matches token "-fls"
    then os_string (codes "-fls") (λ path. action (Action.fls path))
    else if matches token "-quit"
    then plain (action Action.quit)
    else if matches token "-exec"
    then exec_action false false
    else if matches token "-execdir"
    then exec_action true false
    else if matches token "-ok"
    then exec_action false true
    else if matches token "-okdir"
    then exec_action true true
    else if matches token "-delete"
    then plain (action Action.delete)
    else unsupported

-- The arm of `-newerXY` and those behind it.
abbrev newerxy_or_later : Bytes → Atom
newerxy_or_later token = elim (parse_newerxy_flag token) [
  | some xy ↦ os_string token (λ raw. predicate (Predicate.newer_xy xy.0 xy.1 raw))
  | none ↦ later_atom_of token
]

-- The arms from `-nouser` to `-cnewer`, then those behind them.
unfoldable pub middle_atom_of : Bytes → Atom
unfolding later_atom_of parse_newerxy_flag
middle_atom_of token =
    if matches token "-nouser"
    then plain (predicate Predicate.no_user)
    else if matches token "-nogroup"
    then plain (predicate Predicate.no_group)
    else if matches token "-perm"
    then flag_of "-perm" Predicate.perm
    else if matches token "-flags"
    then flag_of "-flags" Predicate.flags
    else if matches token "-reparse-type"
    then flag_of "-reparse-type" Predicate.reparse_type
    else if matches token "-size"
    then flag_of "-size" Predicate.size
    else if matches token "-empty"
    then plain (predicate Predicate.is_empty)
    else if matches token "-used"
    then time_of "-used" Predicate.used
    else if matches token "-inum"
    then numeric_of "-inum" Predicate.inum
    else if matches token "-links"
    then numeric_of "-links" Predicate.links
    else if matches token "-samefile"
    then flag_of "-samefile" Predicate.same_file
    else if matches token "-atime"
    then time_of "-atime" Predicate.a_time
    else if matches token "-ctime"
    then time_of "-ctime" Predicate.c_time
    else if matches token "-mtime"
    then time_of "-mtime" Predicate.m_time
    else if matches token "-amin"
    then time_of "-amin" Predicate.a_min
    else if matches token "-cmin"
    then time_of "-cmin" Predicate.c_min
    else if matches token "-mmin"
    then time_of "-mmin" Predicate.m_min
    else if matches token "-newer"
    then flag_of "-newer" Predicate.newer
    else if matches token "-anewer"
    then flag_of "-anewer" Predicate.a_newer
    else if matches token "-cnewer"
    then flag_of "-cnewer" Predicate.c_newer
    else newerxy_or_later token

-- `parse_atom` takes the first arm whose test the token passes.
unfoldable pub atom_of : Bytes → Atom
unfolding middle_atom_of
atom_of token =
    if matches token "-maxdepth"
    then u32 (codes "-maxdepth") (λ n. predicate (Predicate.max_depth n))
    else if matches token "-mindepth"
    then u32 (codes "-mindepth") (λ n. predicate (Predicate.min_depth n))
    else if matches token "-depth"
    then plain (predicate Predicate.depth)
    else if matches token "-prune"
    then plain (predicate Predicate.prune)
    else if matches token "-xdev" || matches token "-mount"
    then plain (predicate Predicate.x_dev)
    else if matches token "-readable"
    then plain (predicate Predicate.readable)
    else if matches token "-writable"
    then plain (predicate Predicate.writable)
    else if matches token "-executable"
    then plain (predicate Predicate.executable)
    else if matches token "-name"
    then flag_of "-name" (λ p. Predicate.name p false)
    else if matches token "-iname"
    then flag_of "-iname" (λ p. Predicate.name p true)
    else if matches token "-path" || matches token "-wholename"
    then os_string token (λ p. predicate (Predicate.path p false))
    else if matches token "-ipath" || matches token "-iwholename"
    then os_string token (λ p. predicate (Predicate.path p true))
    else if matches token "-regex"
    then flag_of "-regex" (λ p. Predicate.regex p false)
    else if matches token "-iregex"
    then flag_of "-iregex" (λ p. Predicate.regex p true)
    else if matches token "-regextype"
    then flag_of "-regextype" Predicate.regex_type
    else if matches token "-fstype"
    then flag_of "-fstype" Predicate.fs_type
    else if matches token "-lname"
    then flag_of "-lname" (λ p. Predicate.l_name p false)
    else if matches token "-ilname"
    then flag_of "-ilname" (λ p. Predicate.l_name p true)
    else if matches token "-uid"
    then numeric_of "-uid" Predicate.uid
    else if matches token "-gid"
    then numeric_of "-gid" Predicate.gid
    else if matches token "-user"
    then flag_of "-user" Predicate.user
    else if matches token "-group"
    then flag_of "-group" Predicate.group
    else if matches token "-owner"
    then flag_of "-owner" Predicate.owner
    else if matches token "-owner-sid"
    then flag_of "-owner-sid" Predicate.owner_sid
    else if matches token "-group-sid"
    then flag_of "-group-sid" Predicate.group_sid
    else middle_atom_of token

-- `take_os_string`
abbrev pub take_os_string : Bytes → Reader Bytes
take_os_string flag = bump_or (parse (missing_argument flag))

-- The number, or the diagnostic of `take_u32`.
abbrev pub u32_or_invalid : Bytes → Bytes → Result ℕ
u32_or_invalid flag raw = elim (parse_u32 raw) [
  | none ↦ err (invalid_numeric_argument flag raw)
  | some n ↦ ok n
]

-- The `match` of `take_type_filter_for`.
unfoldable pub type_filter_from : Bytes → Bytes → Result FileTypeFilter
type_filter_from flag raw =
    if matches raw "f"
    then ok FileTypeFilter.file
    else if matches raw "d"
    then ok FileTypeFilter.directory
    else if matches raw "l"
    then ok FileTypeFilter.symlink
    else if matches raw "b"
    then ok FileTypeFilter.block
    else if matches raw "c"
    then ok FileTypeFilter.character
    else if matches raw "p"
    then ok FileTypeFilter.fifo
    else if matches raw "s"
    then ok FileTypeFilter.socket
    else err (parse (unsupported_type flag raw))

-- The loop of `take_exec_action`: the arguments before `;` or `+`, and whether it was a `+`.
unfoldable pub exec_arguments : Reader (List Bytes × Bool)
exec_arguments [] = err (parse unterminated_exec)
exec_arguments (token ∷ rest) =
    let later = exec_arguments rest >>= λ ((argv, batch), left). ok ((token ∷ argv, batch), left) in
    if matches token ";"
    then ok (([], false), rest)
    else if matches token "+"
    then ok (([], true), rest)
    else later

-- The `match` of `take_exec_action` on where to run, and whether to ask.
abbrev pub exec_of : Bool → Bool → List Bytes → Bool → Action
exec_of false false argv batch = Action.exec argv batch
exec_of true false argv batch = Action.exec_dir argv batch
exec_of false true argv batch = Action.confirm argv batch
exec_of true true argv batch = Action.confirm_dir argv batch

-- `take_exec_action`
unfoldable pub take_exec_action : Bool → Bool → Reader Action
unfolding exec_arguments
take_exec_action chdir_before_exec prompt ts = exec_arguments ts >>= λ ((argv, batch), rest).
    ok (exec_of chdir_before_exec prompt argv batch, rest)

-- The arguments of an atom.
unfoldable pub take_arguments : Bytes → Atom → Reader Expr
unfolding type_filter_from take_exec_action
take_arguments token (plain e) ts = ok (e, ts)
take_arguments token (os_string flag make) ts =
    take_os_string flag ts >>= λ (raw, rest). ok (make raw, rest)
take_arguments token (u32 flag make) ts =
    take_os_string flag ts >>= λ (raw, rest). u32_or_invalid flag raw >>= λ n. ok (make n, rest)
take_arguments token (numeric flag make) ts = take_os_string flag ts >>= λ (raw, rest).
    validate_numeric_argument flag raw >>= λ _. ok (make raw, rest)
take_arguments token (time flag make) ts = take_os_string flag ts >>= λ (raw, rest).
    validate_time_argument flag raw >>= λ _. ok (make raw, rest)
take_arguments token (type_filter flag make) ts =
    take_os_string flag ts >>= λ (raw, rest). type_filter_from flag raw >>= λ t. ok (make t, rest)
take_arguments token (two_os_strings flag make) ts = take_os_string flag ts >>= λ (first, rest).
    take_os_string flag rest >>= λ (second, left). ok (make first second, left)
take_arguments token (exec_action chdir prompt) ts =
    take_exec_action chdir prompt ts >>= λ (taken, rest). ok (action taken, rest)
take_arguments token unsupported ts = err (parse (unsupported_token token))

-- `parse_atom`
unfoldable pub parse_atom : Reader Expr
unfolding atom_of take_arguments
parse_atom ts = bump_or (parse expected_predicate_or_action) ts >>= λ (token, rest).
    take_arguments token (atom_of token) rest
