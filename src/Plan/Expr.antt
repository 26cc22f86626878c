-- ===== src/Plan/Expr.antt =====
-- `RuntimeExpr` (src/planner.rs). The shared slice of an `And` is a type of its own.
use rushfind.Prelude.{ℕ, zero, suc, Option, none, some}
use rushfind.Plan.Types.{RuntimePredicate, RuntimeAction}

mutual
  pub data RuntimeExpr : Type 0 where
    and : RuntimeExprs → RuntimeExpr
    or : RuntimeExpr → RuntimeExpr → RuntimeExpr
    negate : RuntimeExpr → RuntimeExpr
    predicate : RuntimePredicate → RuntimeExpr
    action : RuntimeAction → RuntimeExpr
    barrier : RuntimeExpr

  pub data RuntimeExprs : Type 0 where
    nil : RuntimeExprs
    cons : RuntimeExpr → RuntimeExprs → RuntimeExprs

-- `items.get(index)`
abbrev pub get_expr? : RuntimeExprs → ℕ → Option RuntimeExpr
get_expr? nil index = none
get_expr? (cons item items) zero = some item
get_expr? (cons item items) (suc index) = get_expr? items index

abbrev pub append_exprs : RuntimeExprs → RuntimeExprs → RuntimeExprs
append_exprs nil others = others
append_exprs (cons item items) others = cons item (append_exprs items others)
