-- ===== src/Plan/Optimizer/Sorted.antt =====
-- The order that the pass leaves a chain in (src/optimizer.rs).
use rushfind.Prelude.{if_known, if_cases, true, false, ◌≡◌, ◌≤◌, ℕ, leb, arith}
use rushfind.Plan.Expr.{
  RuntimeExpr, RuntimeExprs, action, and, append_exprs, barrier, cons, negate, nil, or, predicate,
}
use rushfind.Plan.Optimizer.Profile.{rank}
use rushfind.Plan.Optimizer.Pass.{
  push_expr, expr_cost, optimize_each, flush_segment, insert_by_cost, optimize_loop, sort_by_cost,
  is_reorderable_leaf, optimize_read_only_and_chains,
}

abbrev pub cost_of : RuntimeExpr → ℕ
cost_of item = rank (expr_cost item)

-- The next item, if it may move, costs at least as much.
abbrev pub NextCosts : ℕ → RuntimeExprs → Type 0
NextCosts cost nil = Unit
NextCosts cost (cons item items) = is_reorderable_leaf item ≡ true → cost ≤ cost_of item

-- Side by side, items that may move stand by cost.
abbrev pub IsByCost : RuntimeExprs → Type 0
IsByCost nil = Unit
IsByCost (cons item items) =
    (is_reorderable_leaf item ≡ true → NextCosts (cost_of item) items) × IsByCost items

-- The last item may not move.
abbrev EndsFixed : RuntimeExprs → Type 0
EndsFixed nil = Unit
EndsFixed (cons item nil) = is_reorderable_leaf item ≡ false
EndsFixed (cons item (cons next items)) = EndsFixed (cons next items)

EndsFixed-snoc :
    (items : RuntimeExprs) (item : RuntimeExpr)
    → is_reorderable_leaf item ≡ false
    → EndsFixed (append_exprs items (cons item nil))
EndsFixed-snoc nil item e = e
EndsFixed-snoc (cons x nil) item e = e
EndsFixed-snoc (cons x (cons y items)) item e = EndsFixed-snoc (cons y items) item e

IsByCost-append :
    (first rest : RuntimeExprs)
    → EndsFixed first
    → IsByCost first
    → IsByCost rest
    → IsByCost (append_exprs first rest)
IsByCost-append nil rest fixed h k = k
IsByCost-append (cons x nil) rest fixed h k = ((λ moves. absurd cc), k)
IsByCost-append (cons x (cons y first)) rest fixed h k =
    (h.0, IsByCost-append (cons y first) rest fixed h.1 k)

IsByCost-snoc :
    (items : RuntimeExprs) (item : RuntimeExpr)
    → is_reorderable_leaf item ≡ false
    → IsByCost items
    → IsByCost (append_exprs items (cons item nil))
IsByCost-snoc nil item e h = ((λ moves. tt), tt)
IsByCost-snoc (cons x nil) item e h = ((λ moves moves'. absurd cc), IsByCost-snoc nil item e tt)
IsByCost-snoc (cons x (cons y items)) item e h = (h.0, IsByCost-snoc (cons y items) item e h.1)

NextCosts-insert :
    (cost : ℕ) (item : RuntimeExpr) (items : RuntimeExprs)
    → cost ≤ cost_of item
    → NextCosts cost items
    → NextCosts cost (insert_by_cost item items)
unfolding insert_by_cost
NextCosts-insert cost item nil le h = λ _. le
NextCosts-insert cost item (cons next items) le h =
    if_cases (NextCosts cost) (leb (rank (expr_cost item)) (rank (expr_cost next)))
      (cons item (cons next items)) (cons next (insert_by_cost item items)) (λ _. le) h

IsByCost-insert :
    (item : RuntimeExpr) (items : RuntimeExprs)
    → IsByCost items
    → IsByCost (insert_by_cost item items)
unfolding insert_by_cost
IsByCost-insert item nil h = ((λ _. tt), tt)
IsByCost-insert item (cons next items) h =
    if_known IsByCost (leb (rank (expr_cost item)) (rank (expr_cost next)))
      (cons item (cons next items)) (cons next (insert_by_cost item items))
      (λ le. ((λ _ _. ground arith), h))
      (λ gt. (
        (λ moves. NextCosts-insert (cost_of next) item items (ground arith) (h.0 moves)),
        IsByCost-insert item items h.1,
      ))

sort_by_cost-IsByCost : (items : RuntimeExprs) → IsByCost (sort_by_cost items)
unfolding sort_by_cost
sort_by_cost-IsByCost nil = tt
sort_by_cost-IsByCost (cons item items) =
    IsByCost-insert item (sort_by_cost items) (sort_by_cost-IsByCost items)

optimize_loop-IsByCost :
    (optimized segment items : RuntimeExprs)
    → EndsFixed optimized
    → IsByCost optimized
    → IsByCost (optimize_loop optimized segment items)
unfolding optimize_loop flush_segment
optimize_loop-IsByCost optimized segment nil fixed h =
    IsByCost-append optimized (sort_by_cost segment) fixed h (sort_by_cost-IsByCost segment)
optimize_loop-IsByCost optimized segment (cons item items) fixed h =
    if_known IsByCost (is_reorderable_leaf item)
      (optimize_loop optimized (push_expr segment item) items)
      (optimize_loop (push_expr (flush_segment optimized segment) item) nil items)
      (λ moves. optimize_loop-IsByCost optimized (push_expr segment item) items fixed h)
      (λ stays.
        optimize_loop-IsByCost (push_expr (flush_segment optimized segment) item) nil items
          (EndsFixed-snoc (flush_segment optimized segment) item stays)
          (IsByCost-snoc (flush_segment optimized segment) item stays (
            IsByCost-append optimized (sort_by_cost segment) fixed h
              (sort_by_cost-IsByCost segment))))

-- In every chain of the expression, at any depth below chains, alternatives and negations, items that
-- may move and stand side by side are in the order of their cost.
unfoldable mutual
  pub ChainsByCost : RuntimeExpr → Type 0
  ChainsByCost (and items) = IsByCost items × EachByCost items
  ChainsByCost (or left right) = ChainsByCost left × ChainsByCost right
  ChainsByCost (negate inner) = ChainsByCost inner
  ChainsByCost (predicate p) = Unit
  ChainsByCost (action a) = Unit
  ChainsByCost barrier = Unit

  pub EachByCost : RuntimeExprs → Type 0
  EachByCost nil = Unit
  EachByCost (cons item items) = ChainsByCost item × EachByCost items

EachByCost-append :
    (first rest : RuntimeExprs)
    → EachByCost first
    → EachByCost rest
    → EachByCost (append_exprs first rest)
unfolding ChainsByCost
EachByCost-append nil rest h k = k
EachByCost-append (cons x first) rest h k = (h.0, EachByCost-append first rest h.1 k)

EachByCost-insert :
    (item : RuntimeExpr) (items : RuntimeExprs)
    → ChainsByCost item
    → EachByCost items
    → EachByCost (insert_by_cost item items)
unfolding insert_by_cost EachByCost
EachByCost-insert item nil h k = (h, tt)
EachByCost-insert item (cons next items) h k =
    if_cases EachByCost (leb (rank (expr_cost item)) (rank (expr_cost next)))
      (cons item (cons next items)) (cons next (insert_by_cost item items)) (h, k)
      (k.0, EachByCost-insert item items h k.1)

EachByCost-sort : (items : RuntimeExprs) → EachByCost items → EachByCost (sort_by_cost items)
unfolding sort_by_cost EachByCost
EachByCost-sort nil h = tt
EachByCost-sort (cons item items) h =
    EachByCost-insert item (sort_by_cost items) h.0 (EachByCost-sort items h.1)

EachByCost-optimize_loop :
    (optimized segment items : RuntimeExprs)
    → EachByCost optimized
    → EachByCost segment
    → EachByCost items
    → EachByCost (optimize_loop optimized segment items)
unfolding optimize_loop flush_segment EachByCost
EachByCost-optimize_loop optimized segment nil h k l =
    EachByCost-append optimized (sort_by_cost segment) h (EachByCost-sort segment k)
EachByCost-optimize_loop optimized segment (cons item items) h k l =
    if_cases EachByCost (is_reorderable_leaf item)
      (optimize_loop optimized (push_expr segment item) items)
      (optimize_loop (push_expr (flush_segment optimized segment) item) nil items)
      (EachByCost-optimize_loop optimized (push_expr segment item) items h
        (EachByCost-append segment (cons item nil) k (l.0, tt)) l.1)
      (EachByCost-optimize_loop (push_expr (flush_segment optimized segment) item) nil items
        (EachByCost-append (flush_segment optimized segment) (cons item nil)
          (EachByCost-append optimized (sort_by_cost segment) h (EachByCost-sort segment k))
          (l.0, tt))
        tt l.1)

mutual
  unfolding ChainsByCost optimize_read_only_and_chains

  chains_by_cost : (expr : RuntimeExpr) → ChainsByCost (optimize_read_only_and_chains expr)
  chains_by_cost (and items) = (
    optimize_loop-IsByCost nil nil (optimize_each items) tt tt,
    EachByCost-optimize_loop nil nil (optimize_each items) tt tt (each_by_cost items),
  )
  chains_by_cost (or left right) = (chains_by_cost left, chains_by_cost right)
  chains_by_cost (negate inner) = chains_by_cost inner
  chains_by_cost (predicate p) = tt
  chains_by_cost (action a) = tt
  chains_by_cost barrier = tt

  each_by_cost : (items : RuntimeExprs) → EachByCost (optimize_each items)
  each_by_cost nil = tt
  each_by_cost (cons item items) = (chains_by_cost item, each_by_cost items)

-- After the pass, in every chain of the expression, at any depth, items that may move and stand side
-- by side are in the order of their cost.
pub optimize_read_only_and_chains-ChainsByCost :
    (expr : RuntimeExpr) → ChainsByCost (optimize_read_only_and_chains expr)
optimize_read_only_and_chains-ChainsByCost expr = chains_by_cost expr
