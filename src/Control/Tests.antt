-- ===== src/Control/Tests.antt =====
-- The traversal's verdict on a directory (src/traversal_control.rs, src/runner.rs).
use rushfind.Prelude.Int.{pos}
use rushfind.Prelude.{true, false, ◌≡◌, refl, codes, some, none}
use rushfind.Eval.Predicate.{evaluate_predicate, EvalContext, Services}
use rushfind.Control.Verdict.{
  traversal_control_for_entry, predicate_verdict, evaluate_for_traversal_with_context,
  TraversalControl,
}
use rushfind.Entry.Types.{
  PrincipalId, ReparseTypeClass, FileIdentity, physical, EntryKind, MetadataView,
}
use rushfind.Entry.Context.{EntryContext}
use rushfind.Eval.Machine.{evaluate_outcome_with_context}
use rushfind.Plan.Types.{print, output, RuntimePredicate, pre_order, RuntimeAction}
use rushfind.Time.Types.{Timestamp}
use rushfind.Plan.Expr.{nil, action, predicate, cons, and, RuntimeExpr}
use rushfind.Eval.Ran.{Ran}
use rushfind.Diagnostics.{ok}
use rushfind.Eval.Outcome.{outcome, Outcome}
use rushfind.Control.Truth.{evaluate_for_traversal-truth}
use rushfind.Control.Policy.{build_traversal_control_plan}
use rushfind.Control.Skips.{traversal_control_for_entry-prune}
use rushfind.Entry.Context.{access}

abbrev no_services : Services
no_services = record {
  regex_is_match = λ _ _. ok false;
  normalize_match_text = λ text. text;
  user_exists = λ _. ok true;
  group_exists = λ _. ok true;
  classify_reparse_tag = λ _. ReparseTypeClass.other;
  used_matches = λ _ _ _. false;
  relative_time_matches = λ _ _. ok false;
}

abbrev no_context : EvalContext
no_context = record { mount_snapshot = none; evaluation_now = none }

abbrev start : Timestamp
start = record { seconds = pos 0; nanos = pos 0 }

abbrev directory_view : MetadataView
directory_view = record {
  kind = EntryKind.directory;
  identity = some (FileIdentity.unix 1 2);
  size = 4096;
  owner = some (PrincipalId.numeric 0);
  group = some (PrincipalId.numeric 0);
  mode_bits = some 0o755;
  flag_bits = none;
  reparse_tag = none;
  link_count = some 2;
  atime = start;
  ctime = start;
  mtime = start;
  birth_time = none;
  filesystem_key = none;
}

abbrev target : EntryContext
target = record {
  path = codes "target";
  depth = 1;
  is_command_line_root = false;
  file_name = some (codes "target");
  physical_file_type_hint = none;
  physical_view = ok directory_view;
  followed_view = none;
  read_link = ok (codes "");
  directory_is_empty = ok false;
  reader_access = λ _. some true;
}

-- -readable -print -prune
abbrev pruning : RuntimeExpr
pruning = and (
    cons (predicate RuntimePredicate.readable)
      (cons (action (output print)) (cons (predicate RuntimePredicate.prune) nil)))

prunes_target :
    evaluate_for_traversal_with_context no_services no_context target physical pre_order pruning
    ≡ ok (record { matched = true; prune = true })
unfolding evaluate_for_traversal_with_context predicate_verdict evaluate_predicate access
prunes_target = refl

traversal_control_for_entry-prune_example :
    (planned : TraversalControl) × (traversal_control_for_entry no_services no_context target
        physical pre_order
        (build_traversal_control_plan pruning pre_order)
      ≡ ok planned)
    × (planned.prune ≡ true)
traversal_control_for_entry-prune_example =
    traversal_control_for_entry-prune no_services no_context target physical pre_order pruning
      (record { matched = true; prune = true }) prunes_target

abbrev always_succeeds : RuntimeAction → Unit {0} → Ran (Unit {0}) Outcome
always_succeeds a s = (ok (outcome true), s)

evaluate_for_traversal-truth_example :
    evaluate_outcome_with_context
      (evaluate_predicate no_services no_context target physical)
      always_succeeds
      pruning
      tt
    ≡ (ok (outcome true), tt)
evaluate_for_traversal-truth_example =
    evaluate_for_traversal-truth no_services no_context target physical pre_order always_succeeds
      pruning (record { matched = true; prune = true }) tt (λ a s. refl) prunes_target
