-- ===== src/Control/Policy.antt =====
-- The policy of a run and the traversal plan (src/runtime_policy.rs).
use rushfind.Prelude.{some, none, ltb, not, ◌||◌, if◌then◌else◌, Option, ℕ, Bool, true, false}
use rushfind.Plan.Types.{TraversalOrder, pre_order, depth_first_post_order, RuntimePredicate}
use rushfind.Plan.Expr.{
  RuntimeExpr, RuntimeExprs, and, or, negate, predicate, action, barrier, nil, cons,
}

pub data CommitPolicy : Type 0 where
  ordered_sequence relaxed relaxed_with_subtree_barriers : CommitPolicy

pub record RuntimePolicy : Type 0 where
  pub requested_workers : ℕ
  pub evaluation_workers : ℕ
  pub commit : CommitPolicy

abbrev pub max_one : ℕ → ℕ
max_one n = if ltb n 1 then 1 else n

abbrev relaxed_commit : TraversalOrder → CommitPolicy
relaxed_commit depth_first_post_order = relaxed_with_subtree_barriers
relaxed_commit pre_order = relaxed

-- `RuntimePolicy::derive_with_parallelism`
unfoldable pub derive_with_parallelism : ℕ → TraversalOrder → Bool → ℕ → RuntimePolicy
derive_with_parallelism workers order ordered_mode host_parallelism = record {
  requested_workers = max_one workers;
  evaluation_workers = if ordered_mode then max_one host_parallelism else max_one workers;
  commit = if ordered_mode then ordered_sequence else relaxed_commit order;
}

-- The pattern `RuntimePredicate::Prune`.
unfoldable pub is_prune : RuntimePredicate → Bool
is_prune RuntimePredicate.prune = true
is_prune _ = false

unfoldable mutual
  unfolding is_prune

  pub contains_prune : RuntimeExpr → Bool
  contains_prune (and items) = any_contains_prune items
  contains_prune (or left right) = contains_prune left || contains_prune right
  contains_prune (negate inner) = contains_prune inner
  contains_prune (predicate p) = is_prune p
  contains_prune (action a) = false
  contains_prune barrier = false

  -- `items.iter().any(contains_prune)`
  pub any_contains_prune : RuntimeExprs → Bool
  any_contains_prune nil = false
  any_contains_prune (cons item items) = contains_prune item || any_contains_prune items

unfoldable mutual
  pub project_for_traversal : RuntimeExpr → RuntimeExpr
  project_for_traversal (and items) = and (project_each items)
  project_for_traversal (or left right) =
      or (project_for_traversal left) (project_for_traversal right)
  project_for_traversal (negate inner) = negate (project_for_traversal inner)
  project_for_traversal (predicate p) = predicate p
  project_for_traversal (action a) = barrier
  project_for_traversal barrier = barrier

  -- `items.iter().map(project_for_traversal)`
  pub project_each : RuntimeExprs → RuntimeExprs
  project_each nil = nil
  project_each (cons item items) = cons (project_for_traversal item) (project_each items)

abbrev pub is_pre_order : TraversalOrder → Bool
is_pre_order pre_order = true
is_pre_order depth_first_post_order = false

unfoldable pub build_traversal_control_plan : RuntimeExpr → TraversalOrder → Option RuntimeExpr
unfolding contains_prune project_for_traversal
build_traversal_control_plan expr order =
    if not (is_pre_order order) || not (contains_prune expr)
    then none
    else some (project_for_traversal expr)
