-- ===== src/Walk/Descend.antt =====
-- Whether the walk enters a directory, and what it finds there (src/walker.rs).
use rushfind.Walk.Types.{PendingPath, WalkBackend, TraversalOptions, DiscoveredChild}
use rushfind.Entry.Types.{FileIdentity, device_number}
use rushfind.Entry.Context.{EntryContext}
use rushfind.Eval.Predicate.{identity_eq}
use rushfind.Control.Verdict.{TraversalControl}
use rushfind.Diagnostics.{err, ◌>>=◌, ok, Diagnostic, Result, new, loop_detected}
use rushfind.Prelude.{
  ◌++◌, ◌==◌, false, not, ltb, ◌&&◌, [], some, ◌+◌, none, ◌||◌, any, Bool, true, ℕ, ◌∷◌,
  if◌then◌else◌, Option, List, Bytes,
}

unfoldable pub should_descend : ℕ → Option ℕ → Bool
should_descend depth none = true
should_descend depth (some max) = ltb depth max

unfoldable pub loop_error : Bytes → Diagnostic
loop_error path = new (loop_detected path) 1

-- `ancestry.contains`
abbrev pub contains : List FileIdentity → FileIdentity → Bool
contains ancestry identity = any (λ other. identity_eq other identity) ancestry

abbrev pub DescendDecision : Type 0
DescendDecision = Option (List FileIdentity × Option ℕ)

-- `pending.root_device.or(…)`, which is never empty
unfoldable pub root_device_or : Option ℕ → FileIdentity → ℕ
unfolding device_number
root_device_or none identity = device_number identity
root_device_or (some device) identity = device

-- What follows the identity of the directory.
unfoldable pub descend_into : PendingPath → TraversalOptions → FileIdentity → Result DescendDecision
unfolding loop_error root_device_or device_number
descend_into pending options identity =
    let device = root_device_or pending.root_device identity in
    if contains pending.ancestry identity
    then err (loop_error pending.path)
    else if options.same_file_system && not (device_number identity == device)
    then ok none
    else ok (some (pending.ancestry ++ identity ∷ [], some device))

abbrev pub descend_or_none :
    PendingPath → TraversalOptions → Option FileIdentity → Result DescendDecision
descend_or_none pending options none = ok none
descend_or_none pending options (some identity) = descend_into pending options identity

unfoldable pub should_descend_directory :
    WalkBackend
    → PendingPath
    → EntryContext
    → TraversalOptions
    → TraversalControl
    → Result DescendDecision
unfolding should_descend descend_into
should_descend_directory backend pending entry options control =
    if control.prune || not (should_descend pending.depth options.max_depth)
    then ok none
    else backend.active_directory_identity entry >>= descend_or_none pending options

-- `read_children`: the children, and the errors among them, each in order.
unfoldable pub collect : List (Result DiscoveredChild) → List DiscoveredChild × List Diagnostic
collect [] = ([], [])
collect (ok child ∷ items) =
    let (children, diagnostics) = collect items in (child ∷ children, diagnostics)
collect (err error ∷ items) =
    let (children, diagnostics) = collect items in (children, error ∷ diagnostics)

unfoldable pub read_children : WalkBackend → Bytes → Result (List DiscoveredChild × List Diagnostic)
unfolding collect
read_children backend path = backend.visit_children path >>= λ items. ok (collect items)

-- A child to visit.
abbrev pub pending_child :
    PendingPath → List FileIdentity → Option ℕ → DiscoveredChild → PendingPath
pending_child pending ancestry root_device child = record {
  path = child.path;
  root_path = pending.root_path;
  depth = pending.depth + 1;
  is_command_line_root = false;
  physical_file_type_hint = child.physical_file_type_hint;
  ancestry = ancestry;
  ancestor_barriers = pending.ancestor_barriers;
  root_device = root_device;
  parent_completion = none;
}

-- A path of the command line.
abbrev pub pending_root : Bytes → PendingPath
pending_root path = record {
  path = path;
  root_path = path;
  depth = 0;
  is_command_line_root = true;
  physical_file_type_hint = none;
  ancestry = [];
  ancestor_barriers = [];
  root_device = none;
  parent_completion = none;
}
