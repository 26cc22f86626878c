-- ===== src/Walk/Walker.antt =====
-- The loop of the ordered walk (src/walker.rs, `walk_ordered_with_backend`): a stack of frames, with
-- the next one at the front of the list.
use rushfind.Walk.Types.{
  PendingPath, WalkBackend, TraversalOptions, DiscoveredChild, WalkEvent, OrderedFrame,
  OrderedWalkDirective, visit, complete,
}
use rushfind.Walk.Descend.{should_descend_directory, read_children, pending_child, pending_root}
use rushfind.Walk.Emit.{Flow, Walk, pure, ◌>=>◌, emit_error, emit_scheduled, emit_errors}
use rushfind.Entry.Types.{FileIdentity}
use rushfind.Entry.Context.{EntryContext}
use rushfind.Control.Verdict.{TraversalControl}
use rushfind.Plan.Types.{TraversalOrder, pre_order, depth_first_post_order}
use rushfind.Prelude.{
  zero, suc, ◌++◌, none, ◌∷◌, ◌||◌, true, some, false, not, Bytes, if◌then◌else◌, [], ◌&&◌, ℕ,
  Option, List, Bool,
}
use rushfind.Diagnostics.{ok, Diagnostic, err, Result}

abbrev pub is_some : {A : Type 0} → Option A → Bool
is_some none = false
is_some (some a) = true

abbrev pub is_post_order : TraversalOrder → Bool
is_post_order pre_order = false
is_post_order depth_first_post_order = true

-- The frames of the children, the first child first.
abbrev pub child_frames :
    PendingPath → List FileIdentity → Option ℕ → List DiscoveredChild → List OrderedFrame
child_frames pending ancestry root_device [] = []
child_frames pending ancestry root_device (child ∷ children) =
    visit (pending_child pending ancestry root_device child)
    ∷ child_frames pending ancestry root_device children

-- The backend, the traversal's control, and the order and bounds of the walk.
module _ (backend : WalkBackend) (control : EntryContext → Result TraversalControl)
    (options : TraversalOptions) where
  -- The entry is emitted before its children, or is no directory.
  abbrev pub comes_first : Bool → Bool
  comes_first is_directory = not (is_post_order options.order) || not is_directory

  -- `options.order == DepthFirstPostOrder && is_directory`
  abbrev pub comes_last : Bool → Bool
  comes_last is_directory = is_post_order options.order && is_directory

  -- The frame that completes a directory.
  abbrev pub complete_frames : PendingPath → EntryContext → Bool → List OrderedFrame
  complete_frames pending entry is_directory =
      if comes_last is_directory then complete entry pending.ancestor_barriers ∷ [] else []

  module _ {S : Type 0} (emit : S → WalkEvent → Result OrderedWalkDirective × S) where
    unfoldable pub emit_first : PendingPath → EntryContext → Bool → Walk S (Unit {0})
    unfolding emit_scheduled
    emit_first pending entry is_directory =
        if comes_first is_directory
        then emit_scheduled emit WalkEvent.entry entry pending.ancestor_barriers
        else pure tt

    unfoldable pub complete_now : PendingPath → EntryContext → Bool → Walk S (Unit {0})
    unfolding emit_scheduled
    complete_now pending entry is_directory =
        if comes_last is_directory
        then emit_scheduled emit WalkEvent.directory_complete entry pending.ancestor_barriers
        else pure tt

    -- From `read_children` on; the result is the frames that are pushed.
    unfoldable pub visit_listed :
        PendingPath
        → EntryContext
        → Bool
        → List FileIdentity
        → Option ℕ
        → Result (List DiscoveredChild × List Diagnostic)
        → Walk S (List OrderedFrame)
    unfolding emit_error emit_errors complete_now
    visit_listed pending entry is_directory ancestry root_device (err error) =
        emit_error emit error >=> (λ _. complete_now pending entry is_directory) >=> λ _. pure []
    visit_listed pending entry is_directory ancestry root_device (ok (children, diagnostics)) =
        emit_errors emit diagnostics >=> λ _. pure (
          child_frames pending ancestry root_device children
          ++ complete_frames pending entry is_directory)

    -- From the decision of `should_descend_directory` on.
    unfoldable pub visit_decided :
        PendingPath
        → EntryContext
        → Bool
        → Result (Option (List FileIdentity × Option ℕ))
        → Walk S (List OrderedFrame)
    unfolding visit_listed emit_error complete_now read_children
    visit_decided pending entry is_directory (err error) = emit_error emit error >=> λ _. pure []
    visit_decided pending entry is_directory (ok none) =
        complete_now pending entry is_directory >=> λ _. pure []
    visit_decided pending entry is_directory (ok (some (ancestry, root_device))) =
        visit_listed pending entry is_directory ancestry root_device
          (read_children backend pending.path)

    -- From the identity of the directory on.
    unfoldable pub visit_identified :
        PendingPath
        → EntryContext
        → TraversalControl
        → Result (Option FileIdentity)
        → Walk S (List OrderedFrame)
    unfolding emit_error emit_first visit_decided should_descend_directory
    visit_identified pending entry verdict (err error) = emit_error emit error >=> λ _. pure []
    visit_identified pending entry verdict (ok identity) =
        emit_first pending entry (is_some identity) >=> λ _.
        visit_decided pending entry (is_some identity)
          (should_descend_directory backend pending entry options verdict)

    -- From the traversal's control on.
    unfoldable pub visit_controlled :
        PendingPath → EntryContext → Result TraversalControl → Walk S (List OrderedFrame)
    unfolding emit_error visit_identified
    visit_controlled pending entry (err error) = emit_error emit error >=> λ _. pure []
    visit_controlled pending entry (ok verdict) =
        visit_identified pending entry verdict (backend.active_directory_identity entry)

    -- The rest of the loop's body, for a path to visit.
    unfoldable pub visit_loaded : PendingPath → Result EntryContext → Walk S (List OrderedFrame)
    unfolding emit_error visit_controlled
    visit_loaded pending (err error) = emit_error emit error >=> λ _. pure []
    visit_loaded pending (ok entry) = visit_controlled pending entry (control entry)

    -- The loop's body.
    unfoldable pub step_frame : OrderedFrame → Walk S (List OrderedFrame)
    unfolding visit_loaded emit_scheduled
    step_frame (visit pending) = visit_loaded pending (backend.load_entry pending)
    step_frame (complete entry ancestor_barriers) =
        emit_scheduled emit WalkEvent.directory_complete entry ancestor_barriers >=> λ _. pure []

    -- `while let Some(frame) = stack.pop()`, on fuel
    unfoldable pub walk_loop : ℕ → List OrderedFrame → Walk S (Unit {0})
    unfolding step_frame
    walk_loop fuel [] = pure tt
    walk_loop zero (frame ∷ stack) = λ state. (Flow.exhausted, state)
    walk_loop (suc fuel) (frame ∷ stack) =
        step_frame frame >=> λ pushed. walk_loop fuel (pushed ++ stack)

    abbrev pub root_frames : List Bytes → List OrderedFrame
    root_frames [] = []
    root_frames (path ∷ paths) = visit (pending_root path) ∷ root_frames paths

    -- `walk_ordered_with_backend`, with `next_sequence` at 0
    unfoldable pub walk_ordered_with_backend : ℕ → List Bytes → S → Flow (Unit {0}) × (ℕ × S)
    unfolding walk_loop
    walk_ordered_with_backend fuel start_paths s = walk_loop fuel (root_frames start_paths) (0, s)
