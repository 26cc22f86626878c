-- ===== src/Command/Ast.antt =====
-- The syntax of a command (src/ast.rs).
use rushfind.Plan.Types.{FileTypeFilter}
use rushfind.Entry.Types.{FollowMode}
use rushfind.Prelude.{ℕ, Bool, Bytes, List}

pub data GlobalOption : Type 0 where
  follow : FollowMode → GlobalOption
  version : GlobalOption

-- `Name`, `Path`, `Regex` and `LName` hold the pattern, and whether case is ignored.
pub data Predicate : Type 0 where
  max_depth min_depth : ℕ → Predicate
  depth prune x_dev readable writable executable : Predicate
  name path regex l_name : Bytes → Bool → Predicate
  regex_type fs_type inum links same_file : Bytes → Predicate
  uid gid user group owner owner_sid group_sid : Bytes → Predicate
  no_user no_group : Predicate
  perm flags reparse_type size : Bytes → Predicate
  is_empty : Predicate
  used a_time c_time m_time a_min c_min m_min : Bytes → Predicate
  newer a_newer c_newer : Bytes → Predicate
  -- the two letters, and the reference's argument
  newer_xy : ℕ → ℕ → Bytes → Predicate
  day_start : Predicate
  type_is x_type_is : FileTypeFilter → Predicate
  always never : Predicate

-- An exec-style action holds its arguments, and whether it ends in `+`.
pub data Action : Type 0 where
  print print0 ls quit delete : Action
  printf f_print f_print0 fls : Bytes → Action
  -- the path, and the format
  f_printf : Bytes → Bytes → Action
  exec exec_dir confirm confirm_dir : List Bytes → Bool → Action

mutual
  pub data Expr : Type 0 where
    conjunction : Exprs → Expr
    either : Expr → Expr → Expr
    negation : Expr → Expr
    predicate : Predicate → Expr
    action : Action → Expr

  pub data Exprs : Type 0 where
    no_exprs : Exprs
    expr : Expr → Exprs → Exprs

pub record CommandAst : Type 0 where
  pub start_paths : List Bytes
  pub global_options : List GlobalOption
  pub root : Expr

-- `Vec::push`
unfoldable pub push : Exprs → Expr → Exprs
push no_exprs e = expr e no_exprs
push (expr first items) e = expr first (push items e)
