-- ===== src/Eval/Direct.antt =====
-- The meaning of an expression by recursion on it: what find's `-a`, `-o` and `!` promise, with the
-- statuses of all the actions that ran merged in order.
use rushfind.Prelude.{Bool, true, false, not, ◌||◌}
use rushfind.Diagnostics.{Result, ok, ◌>>=◌}
use rushfind.Plan.Types.{RuntimePredicate, RuntimeAction}
use rushfind.Plan.Expr.{
  RuntimeExpr, RuntimeExprs, and, or, negate, predicate, action, barrier, nil, cons,
}
use rushfind.Eval.Outcome.{
  RuntimeStatus, Outcome, outcome, default_status, merge, is_stop_requested,
}
use rushfind.Eval.Ran.{Ran, bind}

-- The evaluation of a chain or an alternative ends here.
abbrev pub ends_and : Outcome → RuntimeStatus → Bool
ends_and result status = not result.matched || is_stop_requested status

abbrev pub ends_or : Outcome → Bool
ends_or result = result.matched || is_stop_requested result.status

module _ {S : Type 0} (evaluate_predicate : RuntimePredicate → Result Bool)
    (dispatch : RuntimeAction → S → Ran S Outcome) where
  unfoldable mutual
    pub run : RuntimeExpr → S → Ran S Outcome
    run (predicate p) s = (evaluate_predicate p >>= λ matched. ok (outcome matched), s)
    run (action a) s = dispatch a s
    run barrier s = (ok (outcome true), s)
    run (negate inner) s =
        bind (run inner s)
          λ result s'. (ok (record { matched = not result.matched; status = result.status }), s')
    run (or left right) s = bind (run left s) λ result s'. elim (ends_or result) [
      | true ↦ (ok result, s')
      | false ↦ bind (run right s') λ second s''. (
        ok (record { matched = second.matched; status = merge result.status second.status }),
        s'',
      )
    ]
    run (and items) s = run_items default_status items s

    pub run_items : RuntimeStatus → RuntimeExprs → S → Ran S Outcome
    run_items accumulated nil s = (ok (record { matched = true; status = accumulated }), s)
    run_items accumulated (cons item items) s = bind (run item s) λ result s'.
        elim (ends_and result (merge accumulated result.status)) [
          | true ↦ (
            ok (record { matched = result.matched; status = merge accumulated result.status }),
            s',
          )
          | false ↦ run_items (merge accumulated result.status) items s'
        ]
