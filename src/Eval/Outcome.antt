-- ===== src/Eval/Outcome.antt =====
-- The outcome of an action and of an evaluation, and how statuses merge (src/eval.rs).
use rushfind.Prelude.{Bool, true, false, ◌||◌, ◌≡◌, refl, arith}

pub data RuntimeControl : Type 0 where
  continue stop_requested : RuntimeControl

pub record RuntimeStatus : Type 0 where
  pub had_action_failures : Bool
  pub control : RuntimeControl

abbrev pub default_status : RuntimeStatus
default_status = record { had_action_failures = false; control = continue }

abbrev pub action_failure : RuntimeStatus
action_failure = record { had_action_failures = true; control = continue }

abbrev pub stop_status : RuntimeStatus
stop_status = record { had_action_failures = false; control = stop_requested }

abbrev pub merge_control : RuntimeControl → RuntimeControl → RuntimeControl
merge_control stop_requested _ = stop_requested
merge_control continue stop_requested = stop_requested
merge_control continue continue = continue

unfoldable pub merge : RuntimeStatus → RuntimeStatus → RuntimeStatus
merge a b = record {
  had_action_failures = a.had_action_failures || b.had_action_failures;
  control = merge_control a.control b.control;
}

abbrev pub control_stops : RuntimeControl → Bool
control_stops continue = false
control_stops stop_requested = true

unfoldable pub is_stop_requested : RuntimeStatus → Bool
is_stop_requested status = control_stops status.control

-- `ActionOutcome` and `EvalOutcome` have the same two fields.
pub record Outcome : Type 0 where
  pub matched : Bool
  pub status : RuntimeStatus

-- `ActionOutcome::new`, `quit`
abbrev pub outcome : Bool → Outcome
outcome matched = record { matched = matched; status = default_status }

abbrev pub quit_outcome : Outcome
quit_outcome = record { matched = true; status = stop_status }

pub merge_default : (a : RuntimeStatus) → merge a default_status ≡ a
unfolding merge
merge_default a = ground arith

pub is_stop_requested-default : is_stop_requested default_status ≡ false
unfolding is_stop_requested
is_stop_requested-default = refl
