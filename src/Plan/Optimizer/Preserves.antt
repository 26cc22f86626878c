-- ===== src/Plan/Optimizer/Preserves.antt =====
-- The optimized expression evaluates as the written one (src/optimizer.rs).
use rushfind.Prelude.{if_known, elim-false_ext, subst, Bool, true, ◌≡◌, refl, ap, ◌∙◌}
use rushfind.Diagnostics.{Result, ok}
use rushfind.Plan.Types.{RuntimePredicate, RuntimeAction}
use rushfind.Plan.Expr.{
  RuntimeExpr, RuntimeExprs, nil, cons, append_exprs, and, or, negate, predicate, action, barrier,
}
use rushfind.Eval.Ran.{Ran}
use rushfind.Plan.Optimizer.Profile.{predicate_profile}
use rushfind.Eval.Outcome.{is_stop_requested-default, default_status, Outcome}
use rushfind.Plan.Optimizer.Pass.{
  sort_by_cost, push_expr, optimize_read_only_and_chains, flush_segment, is_reorderable_leaf,
  optimize_loop, optimize_each,
}
use rushfind.Plan.Optimizer.Segments.{
  Alike-cons, append_exprs_assoc, Alike-sort, append_exprs-nil, Alike-append, Alike, IsPure,
  AllPure,
}
use rushfind.Eval.Direct.{run_items, ends_or, run}
use rushfind.Eval.Ran.{bind-fun_ext}

-- Every predicate of the expression that may move has a truth value at this entry: none of them fails.
unfoldable mutual
  pub Evaluates : (RuntimePredicate → Result Bool) → RuntimeExpr → Type 0
  Evaluates evaluate_predicate (and items) = EvaluatesEach evaluate_predicate items
  Evaluates evaluate_predicate (or left right) =
      Evaluates evaluate_predicate left × Evaluates evaluate_predicate right
  Evaluates evaluate_predicate (negate inner) = Evaluates evaluate_predicate inner
  Evaluates evaluate_predicate (predicate p) =
      (predicate_profile p).reorderable ≡ true
      → (matched : Bool) × (evaluate_predicate p ≡ ok matched)
  Evaluates evaluate_predicate (action a) = Unit
  Evaluates evaluate_predicate barrier = Unit

  pub EvaluatesEach : (RuntimePredicate → Result Bool) → RuntimeExprs → Type 0
  EvaluatesEach evaluate_predicate nil = Unit
  EvaluatesEach evaluate_predicate (cons item items) =
      Evaluates evaluate_predicate item × EvaluatesEach evaluate_predicate items

module _ {S : Type 0} (evaluate_predicate : RuntimePredicate → Result Bool)
    (dispatch : RuntimeAction → S → Ran S Outcome) where
  -- The items that may move are pure.
  abbrev LeavesPure : RuntimeExprs → Type 0
  LeavesPure nil = Unit
  LeavesPure (cons item items) =
      (is_reorderable_leaf item ≡ true → IsPure evaluate_predicate dispatch item) × LeavesPure items

  AllPure-push :
      (segment : RuntimeExprs) (item : RuntimeExpr)
      → AllPure evaluate_predicate dispatch segment
      → IsPure evaluate_predicate dispatch item
      → AllPure evaluate_predicate dispatch (push_expr segment item)
  AllPure-push nil item ps p = (p, tt)
  AllPure-push (cons next segment) item ps p = (ps.0, AllPure-push segment item ps.1 p)

  Alike-optimize_loop :
      (optimized segment items : RuntimeExprs)
      → AllPure evaluate_predicate dispatch segment
      → LeavesPure items
      → Alike evaluate_predicate dispatch
          (optimize_loop optimized segment items)
          (append_exprs optimized (append_exprs segment items))
  unfolding optimize_loop flush_segment
  Alike-optimize_loop optimized segment nil ps ls =
      Alike-append evaluate_predicate dispatch optimized (sort_by_cost segment)
        (append_exprs segment nil)
        (subst (λ sorted. Alike evaluate_predicate dispatch sorted (append_exprs segment nil))
          (append_exprs-nil (sort_by_cost segment))
          (Alike-sort evaluate_predicate dispatch segment nil ps))
  Alike-optimize_loop optimized segment (cons item items) ps ls =
      if_known
        (λ loop.
          Alike evaluate_predicate dispatch loop
            (append_exprs optimized (append_exprs segment (cons item items))))
        (is_reorderable_leaf item) _ _
        (λ moves.
          subst
            (λ chain.
              Alike evaluate_predicate dispatch
                (optimize_loop optimized (push_expr segment item) items)
                (append_exprs optimized chain))
            (append_exprs_assoc segment (cons item nil) items)
            (Alike-optimize_loop optimized (push_expr segment item) items
              (AllPure-push segment item ps (ls.0 moves)) ls.1))
        (λ stays status s live.
          Alike-optimize_loop (push_expr (flush_segment optimized segment) item) nil items tt ls.1
            status s live
          ∙ ap (λ chain. run_items evaluate_predicate dispatch status chain s)
              (append_exprs_assoc (flush_segment optimized segment) (cons item nil) items
                ∙ append_exprs_assoc optimized (sort_by_cost segment) (cons item items))
          ∙ Alike-append evaluate_predicate dispatch optimized _ _
              (Alike-sort evaluate_predicate dispatch segment (cons item items) ps) status s live)

  leaf-IsPure :
      (item : RuntimeExpr)
      → Evaluates evaluate_predicate item
      → is_reorderable_leaf (optimize_read_only_and_chains item) ≡ true
      → IsPure evaluate_predicate dispatch (optimize_read_only_and_chains item)
  unfolding Evaluates is_reorderable_leaf optimize_read_only_and_chains run
  leaf-IsPure (predicate p) e moves = ((e moves).0, λ s. rw (e moves).1 refl)
  leaf-IsPure (and items) e moves = cc
  leaf-IsPure (or left right) e moves = cc
  leaf-IsPure (negate inner) e moves = cc
  leaf-IsPure (action a) e moves = cc
  leaf-IsPure barrier e moves = cc

  optimize_each-LeavesPure :
      (items : RuntimeExprs)
      → EvaluatesEach evaluate_predicate items
      → LeavesPure (optimize_each items)
  unfolding Evaluates optimize_each
  optimize_each-LeavesPure nil e = tt
  optimize_each-LeavesPure (cons item items) e =
      (leaf-IsPure item e.0, optimize_each-LeavesPure items e.1)

  mutual
    unfolding Evaluates optimize_read_only_and_chains run

    preserved :
        (expr : RuntimeExpr) (s : S)
        → Evaluates evaluate_predicate expr
        → run evaluate_predicate dispatch (optimize_read_only_and_chains expr) s
          ≡ run evaluate_predicate dispatch expr s
    preserved (and items) s e =
        Alike-optimize_loop nil nil (optimize_each items) tt (optimize_each-LeavesPure items e)
          default_status s is_stop_requested-default
        ∙ preserved_each items e default_status s is_stop_requested-default
    preserved (or left right) s e = rw (preserved left s e.0) (
        bind-fun_ext (run evaluate_predicate dispatch left s) _ _ λ result s'.
          elim-false_ext (ends_or result) _ _ _ λ going. rw (preserved right s' e.1) refl)
    preserved (negate inner) s e = rw (preserved inner s e) refl
    preserved (predicate p) s e = refl
    preserved (action a) s e = refl
    preserved barrier s e = refl

    preserved_each :
        (items : RuntimeExprs)
        → EvaluatesEach evaluate_predicate items
        → Alike evaluate_predicate dispatch (optimize_each items) items
    preserved_each nil e status s live = refl
    preserved_each (cons item items) e status s live =
        Alike-cons evaluate_predicate dispatch (optimize_read_only_and_chains item) item
          (optimize_each items) items (λ s'. preserved item s' e.0) (preserved_each items e.1)
          status s live

-- Where every predicate that may move evaluates without an error, the optimized expression runs as the
-- written one: the same outcome or error, the same statuses, and the same actions in the same order.
pub optimize_read_only_and_chains-run :
    {S : Type 0} (evaluate_predicate : RuntimePredicate → Result Bool)
    (dispatch : RuntimeAction → S → Ran S Outcome) (expr : RuntimeExpr) (s : S)
    → Evaluates evaluate_predicate expr
    → run evaluate_predicate dispatch (optimize_read_only_and_chains expr) s
      ≡ run evaluate_predicate dispatch expr s
optimize_read_only_and_chains-run evaluate_predicate dispatch expr s e =
    preserved evaluate_predicate dispatch expr s e
