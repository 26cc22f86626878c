-- ===== src/Plan/Optimizer/KeepsActions.antt =====
-- The pass leaves the actions, and so the profile, alone (src/optimizer.rs, src/planner.rs).
use rushfind.Prelude.{
  ◌∷◌, append-nil, append_assoc, List, ◌++◌, [], sym, ap, if_known, leb, ◌∙◌, if_cases, true, ◌≡◌,
  refl,
}
use rushfind.Plan.Expr.{
  RuntimeExpr, RuntimeExprs, and, or, negate, predicate, action, barrier, nil, cons, append_exprs,
}
use rushfind.Plan.Actions.{
  note_action, default_profile, ActionProfile, populate_action_profile, populate_each,
  compute_action_profile,
}
use rushfind.Plan.Optimizer.Pass.{
  expr_cost, optimize_each, push_expr, sort_by_cost, optimize_read_only_and_chains, flush_segment,
  is_reorderable_leaf, insert_by_cost, optimize_loop,
}
use rushfind.Plan.Types.{RuntimeAction}
use rushfind.Plan.Optimizer.Profile.{rank}

-- Every item may move, so it is a predicate.
abbrev AllMove : RuntimeExprs → Type 0
AllMove nil = Unit
AllMove (cons item items) = (is_reorderable_leaf item ≡ true) × AllMove items

-- The actions of an expression, from left to right.
unfoldable mutual
  pub actions_of : RuntimeExpr → List RuntimeAction
  actions_of (and items) = actions_of_each items
  actions_of (or left right) = actions_of left ++ actions_of right
  actions_of (negate inner) = actions_of inner
  actions_of (predicate p) = []
  actions_of (action a) = a ∷ []
  actions_of barrier = []

  pub actions_of_each : RuntimeExprs → List RuntimeAction
  actions_of_each nil = []
  actions_of_each (cons item items) = actions_of item ++ actions_of_each items

actions_of_each-append :
    (first rest : RuntimeExprs)
    → actions_of_each (append_exprs first rest) ≡ actions_of_each first ++ actions_of_each rest
unfolding actions_of
actions_of_each-append nil rest = refl
actions_of_each-append (cons item first) rest =
    ap (λ found. actions_of item ++ found) (actions_of_each-append first rest)
    ∙ sym (append_assoc (actions_of item) (actions_of_each first) (actions_of_each rest))

actions_of-moves : (item : RuntimeExpr) → is_reorderable_leaf item ≡ true → actions_of item ≡ []
unfolding actions_of is_reorderable_leaf
actions_of-moves (predicate p) e = refl
actions_of-moves (and items) e = cc
actions_of-moves (or left right) e = cc
actions_of-moves (negate inner) e = cc
actions_of-moves (action a) e = cc
actions_of-moves barrier e = cc

actions_of_each-AllMove : (items : RuntimeExprs) → AllMove items → actions_of_each items ≡ []
unfolding actions_of
actions_of_each-AllMove nil h = refl
actions_of_each-AllMove (cons item items) h =
    rw (actions_of-moves item h.0) (actions_of_each-AllMove items h.1)

AllMove-insert :
    (item : RuntimeExpr) (items : RuntimeExprs)
    → is_reorderable_leaf item ≡ true
    → AllMove items
    → AllMove (insert_by_cost item items)
unfolding insert_by_cost
AllMove-insert item nil e h = (e, tt)
AllMove-insert item (cons next items) e h =
    if_cases AllMove (leb (rank (expr_cost item)) (rank (expr_cost next)))
      (cons item (cons next items)) (cons next (insert_by_cost item items)) (e, h)
      (h.0, AllMove-insert item items e h.1)

AllMove-sort : (items : RuntimeExprs) → AllMove items → AllMove (sort_by_cost items)
unfolding sort_by_cost
AllMove-sort nil h = tt
AllMove-sort (cons item items) h =
    AllMove-insert item (sort_by_cost items) h.0 (AllMove-sort items h.1)

AllMove-push :
    (segment : RuntimeExprs) (item : RuntimeExpr)
    → is_reorderable_leaf item ≡ true
    → AllMove segment
    → AllMove (push_expr segment item)
AllMove-push nil item e h = (e, tt)
AllMove-push (cons next segment) item e h = (h.0, AllMove-push segment item e h.1)

actions_of_each-flush :
    (optimized segment : RuntimeExprs)
    → AllMove segment
    → actions_of_each (flush_segment optimized segment) ≡ actions_of_each optimized
unfolding flush_segment
actions_of_each-flush optimized segment h =
    actions_of_each-append optimized (sort_by_cost segment)
    ∙ ap (λ found. actions_of_each optimized ++ found)
        (actions_of_each-AllMove (sort_by_cost segment) (AllMove-sort segment h))
    ∙ append-nil (actions_of_each optimized)

actions_of_each-push :
    (optimized : RuntimeExprs) (item : RuntimeExpr)
    → actions_of_each (push_expr optimized item) ≡ actions_of_each optimized ++ actions_of item
unfolding actions_of
actions_of_each-push optimized item =
    actions_of_each-append optimized (cons item nil)
    ∙ ap (λ found. actions_of_each optimized ++ found) (append-nil (actions_of item))

actions_of_each-optimize_loop :
    (optimized segment items : RuntimeExprs)
    → AllMove segment
    → actions_of_each (optimize_loop optimized segment items)
      ≡ actions_of_each optimized ++ actions_of_each items
unfolding optimize_loop actions_of
actions_of_each-optimize_loop optimized segment nil h =
    actions_of_each-flush optimized segment h ∙ sym (append-nil (actions_of_each optimized))
actions_of_each-optimize_loop optimized segment (cons item items) h =
    if_known
      (λ loop.
        actions_of_each loop ≡ actions_of_each optimized ++ actions_of_each (cons item items))
      (is_reorderable_leaf item) (optimize_loop optimized (push_expr segment item) items)
      (optimize_loop (push_expr (flush_segment optimized segment) item) nil items)
      (λ moves.
        actions_of_each-optimize_loop optimized (push_expr segment item) items
          (AllMove-push segment item moves h)
        ∙ ap (λ found. actions_of_each optimized ++ (found ++ actions_of_each items))
            (sym (actions_of-moves item moves)))
      (λ stays.
        actions_of_each-optimize_loop (push_expr (flush_segment optimized segment) item) nil items
          tt
        ∙ ap (λ found. found ++ actions_of_each items)
            (actions_of_each-push (flush_segment optimized segment) item
              ∙ ap (λ found. found ++ actions_of item) (actions_of_each-flush optimized segment h))
        ∙ append_assoc (actions_of_each optimized) (actions_of item) (actions_of_each items))

mutual
  unfolding optimize_read_only_and_chains actions_of

  keeps_actions :
      (expr : RuntimeExpr) → actions_of (optimize_read_only_and_chains expr) ≡ actions_of expr
  keeps_actions (and items) =
      actions_of_each-optimize_loop nil nil (optimize_each items) tt ∙ each_keeps_actions items
  keeps_actions (or left right) = rw (keeps_actions left, keeps_actions right) refl
  keeps_actions (negate inner) = keeps_actions inner
  keeps_actions (predicate p) = refl
  keeps_actions (action a) = refl
  keeps_actions barrier = refl

  each_keeps_actions :
      (items : RuntimeExprs) → actions_of_each (optimize_each items) ≡ actions_of_each items
  each_keeps_actions nil = refl
  each_keeps_actions (cons item items) = rw (keeps_actions item, each_keeps_actions items) refl

-- The profile notes one action after the other.
abbrev note_actions : List RuntimeAction → ActionProfile → ActionProfile
note_actions [] found = found
note_actions (a ∷ actions) found = note_actions actions (note_action a found)

note_actions-append :
    (first rest : List RuntimeAction) (found : ActionProfile)
    → note_actions (first ++ rest) found ≡ note_actions rest (note_actions first found)
note_actions-append [] rest found = refl
note_actions-append (a ∷ first) rest found = note_actions-append first rest (note_action a found)

mutual
  unfolding populate_action_profile actions_of

  populates :
      (expr : RuntimeExpr) (found : ActionProfile)
      → populate_action_profile expr found ≡ note_actions (actions_of expr) found
  populates (and items) found = populates_each items found
  populates (or left right) found =
      populates right (populate_action_profile left found)
      ∙ ap (note_actions (actions_of right)) (populates left found)
      ∙ sym (note_actions-append (actions_of left) (actions_of right) found)
  populates (negate inner) found = populates inner found
  populates (predicate p) found = refl
  populates (action a) found = refl
  populates barrier found = refl

  populates_each :
      (items : RuntimeExprs) (found : ActionProfile)
      → populate_each items found ≡ note_actions (actions_of_each items) found
  populates_each nil found = refl
  populates_each (cons item items) found =
      populates_each items (populate_action_profile item found)
      ∙ ap (note_actions (actions_of_each items)) (populates item found)
      ∙ sym (note_actions-append (actions_of item) (actions_of_each items) found)

-- The optimized expression has the actions of the expression as written, all of them and in the same
-- order, and so the planner computes the same profile from it.
pub optimize_read_only_and_chains-actions_of :
    (expr : RuntimeExpr)
    → (actions_of (optimize_read_only_and_chains expr) ≡ actions_of expr)
      × (compute_action_profile (optimize_read_only_and_chains expr) ≡ compute_action_profile expr)
unfolding compute_action_profile
optimize_read_only_and_chains-actions_of expr = (
  keeps_actions expr,
  populates (optimize_read_only_and_chains expr) default_profile
      ∙ ap (λ actions. note_actions actions default_profile) (keeps_actions expr)
      ∙ sym (populates expr default_profile),
)
