-- ===== src/Plan/Changes.antt =====
-- What lowering a part of an expression changes (src/planner.rs).
use rushfind.Plan.State.{
  Planning, PlanningState, PlannedFileOutput, require_level, require_platform_feature, needing,
  to_predicate,
}
use rushfind.Plan.Capabilities.{PlatformCapabilities, PlatformFeature, SupportLevel}
use rushfind.Plan.Expr.{RuntimeExpr, RuntimeExprs}
use rushfind.Plan.LowerAction.{path_id}
use rushfind.Walk.Walker.{is_post_order}
use rushfind.Diagnostics.{OnOk-map, Result, OnOk, >>=-OnOk, ok, err}
use rushfind.Std.Paths.{path_eq}
use rushfind.Prelude.{
  ◌+◌, if◌then◌else◌, refl, [], ◌≡◌, ◌∷◌, Option, ◌||◌, List, Bytes, ℕ, Bool, none, some, true,
  false,
}
use rushfind.Plan.Types.{RuntimePredicate}

-- The number of the first file with that path, as `PathBuf` compares paths.
abbrev pub output_id : List PlannedFileOutput → Bytes → Option ℕ
output_id [] path = none
output_id (output ∷ outputs) path =
    let later = output_id outputs path in if path_eq output.path path then some output.id else later

abbrev pub Numbered : ℕ → List PlannedFileOutput → Type 0
Numbered n [] = Unit
Numbered n (output ∷ outputs) = (output.id ≡ n) × Numbered (n + 1) outputs

abbrev pub Distinct : List PlannedFileOutput → Type 0
Distinct [] = Unit
Distinct (output ∷ outputs) = (output_id outputs output.path ≡ none) × Distinct outputs

-- The output files are numbered from 0, no two have the same path, and the map leads from each path to
-- its file's number.
abbrev pub Outputs : PlanningState → Type 0
Outputs state =
    Numbered 0 state.file_outputs
    × Distinct state.file_outputs
    × ((path : Bytes) → path_id state.file_output_ids path ≡ output_id state.file_outputs path)

-- An action was seen, `-delete` was seen, and the order was made depth-first.
abbrev pub Changes : Bool → Bool → Bool → Planning → Planning → Type 0
Changes acts deletes orders s t =
    (t.state.saw_action ≡ (s.state.saw_action || acts))
    × (t.state.saw_delete ≡ (s.state.saw_delete || deletes))
    × (is_post_order t.traversal.order ≡ (is_post_order s.traversal.order || orders))
    × (Outputs s.state → Outputs t.state)

pub or_false : (b : Bool) → b ≡ (b || false)
or_false true = refl
or_false false = refl

or_assoc : (a b c : Bool) → ((a || b) || c) ≡ (a || (b || c))
or_assoc true b c = refl
or_assoc false b c = refl

pub Changes-refl : (s : Planning) → Changes false false false s s
Changes-refl s = (
  or_false s.state.saw_action,
  or_false s.state.saw_delete,
  or_false (is_post_order s.traversal.order),
  λ w. w,
)

or_step : (a b c x y : Bool) → b ≡ (a || x) → c ≡ (b || y) → c ≡ (a || (x || y))
or_step a b c x y e f = rw (f, e) (or_assoc a x y)

pub Changes-trans :
    (a d o a' d' o' : Bool) (s t u : Planning)
    → Changes a d o s t
    → Changes a' d' o' t u
    → Changes (a || a') (d || d') (o || o') s u
Changes-trans _ _ _ _ _ _ s t u (a, d, o, w) (a', d', o', w') =
    (or_step _ _ _ _ _ a a', or_step _ _ _ _ _ d d', or_step _ _ _ _ _ o o', λ x. w' (w x))

unfoldable mutual
  pub has_action : RuntimeExpr → Bool
  has_action (RuntimeExpr.and items) = some_has_action items
  has_action (RuntimeExpr.or left right) = has_action left || has_action right
  has_action (RuntimeExpr.negate e) = has_action e
  has_action (RuntimeExpr.action a) = true
  has_action _ = false

  pub some_has_action : RuntimeExprs → Bool
  some_has_action RuntimeExprs.nil = false
  some_has_action (RuntimeExprs.cons e items) = has_action e || some_has_action items

-- Lowering something with these effects, where it succeeds.
abbrev pub Does : Bool → Bool → Bool → Planning → Result (RuntimeExpr × Planning) → Type 0
Does acts deletes orders s result =
    OnOk (λ r. (has_action r.0 ≡ acts) × Changes acts deletes orders s r.1) result

pub require_platform_feature-Changes :
    (capabilities : PlatformCapabilities) (feature : PlatformFeature) (s : Planning)
    → OnOk (Changes false false false s) (require_platform_feature capabilities feature s)
unfolding require_platform_feature
require_platform_feature-Changes capabilities feature s = by_level (capabilities.support feature)
  where
    by_level : (level : SupportLevel) → OnOk (Changes false false false s) (require_level level s)
    by_level SupportLevel.exact = Changes-refl s
    by_level (SupportLevel.approximate message) = Changes-refl s
    by_level (SupportLevel.unsupported message) = tt

pub needing-Does :
    (a d o : Bool) (capabilities : PlatformCapabilities) (feature : PlatformFeature)
    (rest : Planning → Result (RuntimeExpr × Planning)) (s : Planning)
    → ((t : Planning) → Does a d o t (rest t))
    → Does a d o s (needing capabilities feature rest s)
needing-Does a d o capabilities feature rest s h =
    >>=-OnOk (Changes false false false s) (λ r. (has_action r.0 ≡ a) × Changes a d o s r.1)
      (require_platform_feature capabilities feature s) rest
      (require_platform_feature-Changes capabilities feature s)
      λ t c.
        OnOk-map (λ r. (has_action r.0 ≡ a) × Changes a d o t r.1) _ (rest t)
          (λ r k. (k.0, Changes-trans false false false a d o s t (r.1) c (k.1))) (h t)

pub to_predicate-Does :
    {A : Type 0} (argument : Result A) (make : A → RuntimePredicate) (s : Planning)
    → Does false false false s (to_predicate argument make s)
unfolding has_action
to_predicate-Does (ok a) make s = (refl, Changes-refl s)
to_predicate-Does (err e) make s = tt
