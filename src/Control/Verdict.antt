-- ===== src/Control/Verdict.antt =====
-- What an expression says about descending into an entry (src/traversal_control.rs, src/runner.rs).
use rushfind.Prelude.{if◌then◌else◌, Bool, true, false, not, ◌||◌, Option, none, some}
use rushfind.Diagnostics.{Result, ok, ◌>>=◌}
use rushfind.Plan.Types.{TraversalOrder, RuntimePredicate}
use rushfind.Plan.Expr.{
  RuntimeExpr, RuntimeExprs, and, or, negate, predicate, action, barrier, nil, cons,
}
use rushfind.Eval.Predicate.{evaluate_predicate, EvalContext, Services}
use rushfind.Entry.Types.{FollowMode, EntryKind}
use rushfind.Entry.Context.{active_kind, EntryContext}
use rushfind.Control.Policy.{is_prune, is_pre_order}

pub record TraversalControl : Type 0 where
  pub matched : Bool
  pub prune : Bool

abbrev pub allow : TraversalControl
allow = record { matched = true; prune = false }

abbrev is_directory : EntryKind → Bool
is_directory EntryKind.directory = true
is_directory _ = false

module _ (services : Services) (context : EvalContext) (entry : EntryContext) (mode : FollowMode)
    (order : TraversalOrder) where
  -- `order == PreOrder && entry.active_kind(follow_mode)? == Directory`
  unfoldable pub prunes : Result Bool
  unfolding active_kind
  prunes =
      if is_pre_order order
      then (active_kind entry mode >>= λ kind. ok (is_directory kind))
      else ok false

  -- The arms for predicates.
  unfoldable pub predicate_verdict : RuntimePredicate → Result TraversalControl
  unfolding evaluate_predicate prunes is_prune
  predicate_verdict p =
      if is_prune p
      then (prunes >>= λ prune. ok (record { matched = true; prune = prune }))
      else (evaluate_predicate services context entry mode p >>= λ matched.
          ok (record { matched = matched; prune = false }))

  unfoldable mutual
    unfolding predicate_verdict

    pub evaluate_for_traversal_with_context : RuntimeExpr → Result TraversalControl
    evaluate_for_traversal_with_context (and items) = verdict_of_items allow items
    evaluate_for_traversal_with_context (or left right) =
        evaluate_for_traversal_with_context left >>= λ first. elim first.matched [
          | true ↦ ok first
          | false ↦ evaluate_for_traversal_with_context right >>= λ second.
              ok (record { matched = second.matched; prune = first.prune || second.prune })
        ]
    evaluate_for_traversal_with_context (negate inner) =
        evaluate_for_traversal_with_context inner >>= λ verdict.
        ok (record { matched = not verdict.matched; prune = verdict.prune })
    evaluate_for_traversal_with_context (predicate p) = predicate_verdict p
    evaluate_for_traversal_with_context (action a) = ok allow
    evaluate_for_traversal_with_context barrier = ok allow

    -- The loop over the items of an `And`, with the verdict so far.
    pub verdict_of_items : TraversalControl → RuntimeExprs → Result TraversalControl
    verdict_of_items verdict nil = ok verdict
    verdict_of_items verdict (cons item items) =
        evaluate_for_traversal_with_context item >>= λ next. elim (not next.matched) [
          | true ↦ ok (record { matched = false; prune = verdict.prune || next.prune })
          | false ↦
              verdict_of_items
                (record { matched = verdict.matched; prune = verdict.prune || next.prune }) items
        ]

  unfoldable pub traversal_control_for_entry : Option RuntimeExpr → Result TraversalControl
  unfolding evaluate_for_traversal_with_context
  traversal_control_for_entry (some expr) = evaluate_for_traversal_with_context expr
  traversal_control_for_entry none = ok allow
