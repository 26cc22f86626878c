-- ===== src/Plan/Optimizer/Pass.antt =====
-- The pass itself (src/optimizer.rs). `sort_by_key` is a stable sort: an insertion sort that puts an
-- item behind the items of the same cost.
use rushfind.Prelude.{Bool, false, leb, if◌then◌else◌}
use rushfind.Plan.Expr.{
  RuntimeExpr, RuntimeExprs, and, or, negate, predicate, action, barrier, nil, cons, append_exprs,
}
use rushfind.Plan.Optimizer.Profile.{CostTier, rank, expensive, predicate_profile}

unfoldable pub is_reorderable_leaf : RuntimeExpr → Bool
is_reorderable_leaf (predicate p) = (predicate_profile p).reorderable
is_reorderable_leaf _ = false

unfoldable pub expr_cost : RuntimeExpr → CostTier
expr_cost (predicate p) = (predicate_profile p).cost
expr_cost _ = expensive

-- Into a sorted list, before the items that cost at least as much.
unfoldable pub insert_by_cost : RuntimeExpr → RuntimeExprs → RuntimeExprs
unfolding expr_cost
insert_by_cost item nil = cons item nil
insert_by_cost item (cons next items) =
    if leb (rank (expr_cost item)) (rank (expr_cost next))
    then cons item (cons next items)
    else cons next (insert_by_cost item items)

-- `segment.sort_by_key(expr_cost)`
unfoldable pub sort_by_cost : RuntimeExprs → RuntimeExprs
unfolding insert_by_cost
sort_by_cost nil = nil
sort_by_cost (cons item items) = insert_by_cost item (sort_by_cost items)

-- `flush_segment` appends the sorted segment to the output.
unfoldable pub flush_segment : RuntimeExprs → RuntimeExprs → RuntimeExprs
unfolding sort_by_cost
flush_segment output segment = append_exprs output (sort_by_cost segment)

abbrev pub push_expr : RuntimeExprs → RuntimeExpr → RuntimeExprs
push_expr items item = append_exprs items (cons item nil)

-- The loop of `optimize_and_items`, over items that are optimized themselves.
unfoldable pub optimize_loop : RuntimeExprs → RuntimeExprs → RuntimeExprs → RuntimeExprs
unfolding is_reorderable_leaf flush_segment
optimize_loop optimized segment nil = flush_segment optimized segment
optimize_loop optimized segment (cons item items) =
    let stay = optimize_loop optimized (push_expr segment item) items in
    let flush = optimize_loop (push_expr (flush_segment optimized segment) item) nil items in
    if is_reorderable_leaf item then stay else flush

unfoldable mutual
  unfolding optimize_loop

  pub optimize_read_only_and_chains : RuntimeExpr → RuntimeExpr
  optimize_read_only_and_chains (and items) = and (optimize_loop nil nil (optimize_each items))
  optimize_read_only_and_chains (or left right) =
      or (optimize_read_only_and_chains left) (optimize_read_only_and_chains right)
  optimize_read_only_and_chains (negate inner) = negate (optimize_read_only_and_chains inner)
  optimize_read_only_and_chains (predicate p) = predicate p
  optimize_read_only_and_chains (action a) = action a
  optimize_read_only_and_chains barrier = barrier

  -- `items.into_iter().map(optimize_read_only_and_chains)`
  pub optimize_each : RuntimeExprs → RuntimeExprs
  optimize_each nil = nil
  optimize_each (cons item items) = cons (optimize_read_only_and_chains item) (optimize_each items)
