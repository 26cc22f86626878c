-- ===== src/Walk/Types.antt =====
-- What the walk works on (src/walker.rs, src/runtime_pipeline.rs, src/planner.rs).
use rushfind.Prelude.{ℕ, Bool, Bytes, Option, List}
use rushfind.Entry.Types.{EntryKind, FileIdentity}
use rushfind.Entry.Context.{EntryContext}
use rushfind.Diagnostics.{Diagnostic, Result}
use rushfind.Plan.Types.{TraversalOrder}

-- A `SubtreeBarrierId` is its number.
pub record EntryTicket : Type 0 where
  pub sequence : ℕ
  pub ancestor_barriers : List ℕ
  pub block_on_subtree : Option ℕ

pub record ScheduledEntry : Type 0 where
  pub entry : EntryContext
  pub ticket : EntryTicket

pub data WalkEvent : Type 0 where
  entry directory_complete : ScheduledEntry → WalkEvent
  failure : Diagnostic → WalkEvent

pub data OrderedWalkDirective : Type 0 where
  continue stop : OrderedWalkDirective

pub record PendingPath : Type 0 where
  pub path : Bytes
  pub root_path : Bytes
  pub depth : ℕ
  pub is_command_line_root : Bool
  pub physical_file_type_hint : Option EntryKind
  pub ancestry : List FileIdentity
  pub ancestor_barriers : List ℕ
  pub root_device : Option ℕ
  pub parent_completion : Option ℕ

pub data OrderedFrame : Type 0 where
  visit : PendingPath → OrderedFrame
  complete : EntryContext → List ℕ → OrderedFrame

pub record DiscoveredChild : Type 0 where
  pub path : Bytes
  pub physical_file_type_hint : Option EntryKind

pub record TraversalOptions : Type 0 where
  pub min_depth : ℕ
  pub max_depth : Option ℕ
  pub same_file_system : Bool
  pub order : TraversalOrder

-- The trait's methods, as functions of their arguments: the file system stands still during a walk.
-- `visit_children` gives the items it hands over.
pub record WalkBackend : Type 0 where
  pub load_entry : PendingPath → Result EntryContext
  pub visit_children : Bytes → Result (List (Result DiscoveredChild))
  pub active_directory_identity : EntryContext → Result (Option FileIdentity)
