-- ===== src/Plan/Actions.antt =====
-- The profile of an expression's actions, and the policy it asks for (src/planner.rs).
use rushfind.Prelude.{not, ℕ, Bool, true, false, ◌||◌, Option, none, some, leb, if◌then◌else◌}
use rushfind.Plan.Types.{RuntimeAction, TraversalOrder}
use rushfind.Plan.Expr.{
  RuntimeExpr, RuntimeExprs, and, or, negate, predicate, action, barrier, nil, cons,
}
use rushfind.Control.Policy.{is_pre_order}

pub data ParallelExecutionPolicy : Type 0 where
  pre_order_fast_path post_order_subtree : ParallelExecutionPolicy

pub record ActionProfile : Type 0 where
  pub has_local_immediate : Bool
  pub has_local_batched : Bool
  pub has_global_control : Bool
  pub has_subtree_finalizer : Bool
  pub has_ordered_only : Bool

abbrev pub default_profile : ActionProfile
default_profile = record {
  has_local_immediate = false;
  has_local_batched = false;
  has_global_control = false;
  has_subtree_finalizer = false;
  has_ordered_only = false;
}

abbrev pub note_action : RuntimeAction → ActionProfile → ActionProfile
note_action RuntimeAction.quit found = record found { has_global_control = true }
note_action (RuntimeAction.exec_immediate _) found = record found { has_local_immediate = true }
note_action (RuntimeAction.exec_prompt _) found = record found { has_local_immediate = true }
note_action (RuntimeAction.exec_batched _) found = record found { has_local_batched = true }
note_action RuntimeAction.delete found = record found { has_subtree_finalizer = true }
note_action _ found = found

unfoldable mutual
  pub populate_action_profile : RuntimeExpr → ActionProfile → ActionProfile
  populate_action_profile (and items) found = populate_each items found
  populate_action_profile (or left right) found =
      populate_action_profile right (populate_action_profile left found)
  populate_action_profile (negate inner) found = populate_action_profile inner found
  populate_action_profile (predicate p) found = found
  populate_action_profile (action a) found = note_action a found
  populate_action_profile barrier found = found

  pub populate_each : RuntimeExprs → ActionProfile → ActionProfile
  populate_each nil found = found
  populate_each (cons item items) found = populate_each items (populate_action_profile item found)

unfoldable pub compute_action_profile : RuntimeExpr → ActionProfile
unfolding populate_action_profile
compute_action_profile expr = populate_action_profile expr default_profile

-- The traversal options matter by their order only.
unfoldable pub choose_parallel_policy :
    ℕ → TraversalOrder → ActionProfile → Option ParallelExecutionPolicy
choose_parallel_policy workers order found =
    if leb workers 1
    then none
    else (if not (is_pre_order order) || found.has_subtree_finalizer
        then some post_order_subtree
        else some pre_order_fast_path)
