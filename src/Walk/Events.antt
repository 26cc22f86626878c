-- ===== src/Walk/Events.antt =====
-- What a walk hands over, as the tree it goes through: a path's entry, then the events of its children,
-- or in depth-first order the children's events, then the entry (src/walker.rs).
use rushfind.Walk.Types.{
  PendingPath, WalkBackend, TraversalOptions, DiscoveredChild, WalkEvent, OrderedWalkDirective,
}
use rushfind.Walk.Descend.{pending_root, should_descend_directory, read_children, pending_child}
use rushfind.Walk.Walker.{is_some, comes_first, comes_last}
use rushfind.Walk.Emit.{Walk, pure, ◌>=>◌, emit_error, emit_scheduled}
use rushfind.Entry.Context.{EntryContext}
use rushfind.Control.Verdict.{TraversalControl}
use rushfind.Diagnostics.{ok, err, ◌>>=◌, Diagnostic, Result}
use rushfind.Prelude.{
  Bytes, zero, none, some, ◌++◌, suc, [], if◌then◌else◌, ℕ, Bool, ◌∷◌, Option, List,
}
use rushfind.Entry.Types.{FileIdentity}

-- An event before it is numbered.
pub data Announcement : Type 0 where
  entry directory_complete : EntryContext → List ℕ → Announcement
  failure : Diagnostic → Announcement

-- What there is to see at a path: the announcements in front of the children, the children, and those
-- behind them.
pub record Sight : Type 0 where
  pub front : List Announcement
  pub children : List PendingPath
  pub back : List Announcement

abbrev pub only_failure : Diagnostic → Sight
only_failure error = record { front = failure error ∷ []; children = []; back = [] }

abbrev pub failures : List Diagnostic → List Announcement
failures [] = []
failures (error ∷ errors) = failure error ∷ failures errors

-- The paths of the command line.
abbrev pub roots : List Bytes → List PendingPath
roots [] = []
roots (path ∷ paths) = pending_root path ∷ roots paths

abbrev pub flat_map : {A B : Type 0} → (A → List B) → List A → List B
flat_map f [] = []
flat_map f (a ∷ rest) = f a ++ flat_map f rest

abbrev pub Each : {A : Type 0} → (A → Type 0) → List A → Type 0
Each P [] = Unit
Each P (a ∷ rest) = P a × Each P rest

abbrev pub pending_children :
    PendingPath → List FileIdentity → Option ℕ → List DiscoveredChild → List PendingPath
pending_children pending ancestry root_device [] = []
pending_children pending ancestry root_device (child ∷ children) =
    pending_child pending ancestry root_device child
    ∷ pending_children pending ancestry root_device children

module _ (backend : WalkBackend) (control : EntryContext → Result TraversalControl)
    (options : TraversalOptions) where
  abbrev pub first_of : PendingPath → EntryContext → Bool → List Announcement
  first_of pending e is_directory =
      if comes_first backend control options is_directory
      then entry e pending.ancestor_barriers ∷ []
      else []

  abbrev pub last_of : PendingPath → EntryContext → Bool → List Announcement
  last_of pending e is_directory =
      if comes_last backend control options is_directory
      then directory_complete e pending.ancestor_barriers ∷ []
      else []

  -- A directory that is entered, or cannot be listed.
  unfoldable pub listed :
      PendingPath
      → EntryContext
      → Bool
      → List FileIdentity
      → Option ℕ
      → Result (List DiscoveredChild × List Diagnostic)
      → Sight
  listed pending e is_directory ancestry root_device (err error) = record {
    front = first_of pending e is_directory ++ failure error ∷ [];
    children = [];
    back = last_of pending e is_directory;
  }
  listed pending e is_directory ancestry root_device (ok (children, errors)) = record {
    front = first_of pending e is_directory ++ failures errors;
    children = pending_children pending ancestry root_device children;
    back = last_of pending e is_directory;
  }

  unfoldable pub decided :
      PendingPath → EntryContext → Bool → Result (Option (List FileIdentity × Option ℕ)) → Sight
  unfolding listed read_children
  decided pending e is_directory (err error) = record {
    front = first_of pending e is_directory ++ failure error ∷ [];
    children = [];
    back = [];
  }
  decided pending e is_directory (ok none) = record {
    front = first_of pending e is_directory;
    children = [];
    back = last_of pending e is_directory;
  }
  decided pending e is_directory (ok (some (ancestry, root_device))) =
      listed pending e is_directory ancestry root_device (read_children backend pending.path)

  -- The three questions that come before anything is shown.
  unfoldable pub shown :
      Result (EntryContext × TraversalControl × Option FileIdentity) → PendingPath → Sight
  unfolding decided should_descend_directory
  shown (err error) pending = only_failure error
  shown (ok (e, verdict, identity)) pending =
      decided pending e (is_some identity)
        (should_descend_directory backend pending e options verdict)

  abbrev pub questions :
      PendingPath → Result (EntryContext × TraversalControl × Option FileIdentity)
  questions pending = backend.load_entry pending >>= λ e. control e >>= λ verdict.
      backend.active_directory_identity e >>= λ identity. ok (e, verdict, identity)

  unfoldable pub look : PendingPath → Sight
  unfolding shown
  look pending = shown (questions pending) pending

  -- The announcements of a path, down to a height.
  unfoldable pub announcements : ℕ → PendingPath → List Announcement
  unfolding look
  announcements zero pending = []
  announcements (suc height) pending =
      (look pending).front
      ++ (flat_map (announcements height) (look pending).children ++ (look pending).back)

  -- The height is that of the tree, at least.
  unfoldable pub EndsWithin : ℕ → PendingPath → Type 0
  unfolding look
  EndsWithin zero pending = ⊥
  EndsWithin (suc height) pending = Each (EndsWithin height) (look pending).children

  -- Handing over announcements in order, which ends where `emit` stops it or fails.
  module _ {S : Type 0} (emit : S → WalkEvent → Result OrderedWalkDirective × S) where
    unfoldable pub announce : Announcement → Walk S (Unit {0})
    unfolding emit_error emit_scheduled
    announce (entry e barriers) = emit_scheduled emit WalkEvent.entry e barriers
    announce (directory_complete e barriers) =
        emit_scheduled emit WalkEvent.directory_complete e barriers
    announce (failure error) = emit_error emit error

    unfoldable pub announce_all : List Announcement → Walk S (Unit {0})
    unfolding announce
    announce_all [] = pure tt
    announce_all (a ∷ rest) = announce a >=> λ _. announce_all rest
