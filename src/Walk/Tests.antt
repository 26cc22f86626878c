-- ===== src/Walk/Tests.antt =====
-- A small tree that the properties are applied to: the directory `r` holds the file `r/a`, and the link
-- `r/l` to `r` itself.
use rushfind.Walk.Types.{
  PendingPath, WalkBackend, WalkEvent, TraversalOptions, OrderedWalkDirective, DiscoveredChild,
}
use rushfind.Walk.Descend.{loop_error, pending_root, pending_child, contains}
use rushfind.Walk.Walker.{walk_ordered_with_backend}
use rushfind.Walk.Events.{
  Announcement, EndsWithin, Each, roots, announcements, announce_all, flat_map, look,
}
use rushfind.Walk.Refinement.{walk_ordered_with_backend-announcements}
use rushfind.Walk.Loops.{HasIdentityIn, roots-EndsWithin}
use rushfind.Entry.Types.{FileIdentity, EntryKind, FollowMode, MetadataView}
use rushfind.Time.Types.{Timestamp}
use rushfind.Prelude.Int.{ℤ}
use rushfind.Entry.Context.{EntryContext, active_directory_identity}
use rushfind.Control.Verdict.{TraversalControl, allow}
use rushfind.Plan.Types.{TraversalOrder}
use rushfind.Prelude.{
  refl, subst, some, bytes_eq, [], ◌+◌, if◌then◌else◌, ◌≡◌, ℕ, ◌++◌, ◌∷◌, false, String, codes,
  List, Bytes, none,
}
use rushfind.Diagnostics.{Message, parse, err, Result, ok, ok-injective}

abbrev epoch : Timestamp
epoch = record { seconds = ℤ.pos 0; nanos = ℤ.pos 0 }

abbrev view_of : EntryKind → ℕ → MetadataView
view_of kind inode = record {
  kind = kind;
  identity = some (FileIdentity.unix 1 inode);
  size = 0;
  owner = none;
  group = none;
  mode_bits = none;
  flag_bits = none;
  reparse_tag = none;
  link_count = none;
  atime = epoch;
  ctime = epoch;
  mtime = epoch;
  birth_time = none;
  filesystem_key = none;
}

data Place : Type 0 where
  top link inner : Place

abbrev place_at : Bytes → Place
place_at path =
    if bytes_eq path (codes "r") then top else if bytes_eq path (codes "r/l") then link else inner

abbrev physical_view_of : Place → MetadataView
physical_view_of top = view_of EntryKind.directory 2
physical_view_of link = view_of EntryKind.symlink 3
physical_view_of inner = view_of EntryKind.file 4

abbrev followed_view_of : Place → MetadataView
followed_view_of link = view_of EntryKind.directory 2
followed_view_of place = physical_view_of place

abbrev entry_of : Place → PendingPath → EntryContext
entry_of place pending = record {
  path = pending.path;
  depth = pending.depth;
  is_command_line_root = pending.is_command_line_root;
  file_name = none;
  physical_file_type_hint = none;
  physical_view = ok (physical_view_of place);
  followed_view = some (followed_view_of place);
  read_link = err (parse Message.expected_close);
  directory_is_empty = ok false;
  reader_access = λ mode. none;
}

abbrev entry_at : PendingPath → EntryContext
entry_at pending = entry_of (place_at pending.path) pending

abbrev child_at : String → DiscoveredChild
child_at path = record { path = codes path; physical_file_type_hint = none }

-- The links are followed, so `r/l` is the directory `r` again. The identities are those that the entries'
-- own accessor gives.
abbrev small_tree : WalkBackend
small_tree = record {
  load_entry = λ pending. ok (entry_at pending);
  visit_children = λ path. ok (ok (child_at "r/a") ∷ ok (child_at "r/l") ∷ []);
  active_directory_identity = λ e. active_directory_identity e FollowMode.logical;
}

abbrev enter_all : EntryContext → Result TraversalControl
enter_all e = ok allow

abbrev depth_first : TraversalOptions
depth_first = record {
  min_depth = 0;
  max_depth = none;
  same_file_system = false;
  order = TraversalOrder.depth_first_post_order;
}

abbrev record_events : List WalkEvent → WalkEvent → Result OrderedWalkDirective × List WalkEvent
record_events events event = (ok OrderedWalkDirective.continue, events ++ event ∷ [])

abbrev starts : List Bytes
starts = codes "r" ∷ []

abbrev known_ids : List FileIdentity
known_ids = FileIdentity.unix 1 2 ∷ []

place-HasIdentityIn :
    (place : Place) (pending : PendingPath)
    → HasIdentityIn known_ids small_tree (entry_of place pending)
unfolding active_directory_identity contains
place-HasIdentityIn top pending = refl
place-HasIdentityIn link pending = refl
place-HasIdentityIn inner pending = tt

known_ids-known :
    (pending : PendingPath) (e : EntryContext)
    → small_tree.load_entry pending ≡ ok e
    → HasIdentityIn known_ids small_tree e
known_ids-known pending e loaded =
    subst (HasIdentityIn known_ids small_tree) (ok-injective loaded)
      (place-HasIdentityIn (place_at pending.path) pending)

roots-EndsWithin_example : Each (EndsWithin small_tree enter_all depth_first 2) (roots starts)
roots-EndsWithin_example =
    roots-EndsWithin small_tree enter_all depth_first known_ids known_ids-known starts

walk_ordered_with_backend-announcements_example :
    (needed : ℕ) × ((spare : ℕ)
      → walk_ordered_with_backend small_tree enter_all depth_first record_events
          (needed + spare)
          starts
          []
        ≡ announce_all small_tree enter_all depth_first record_events
            (flat_map (announcements small_tree enter_all depth_first 2) (roots starts))
            (0, []))
walk_ordered_with_backend-announcements_example =
    walk_ordered_with_backend-announcements small_tree enter_all depth_first record_events 2 starts
      [] roots-EndsWithin_example

-- The file's entry is the first, the loop is refused, and the directory comes last.
announcements-example :
    flat_map (announcements small_tree enter_all depth_first 2) (roots starts)
    ≡ Announcement.entry
        (entry_at (pending_child (pending_root (codes "r")) known_ids (some 1) (child_at "r/a")))
        []
      ∷ Announcement.failure (loop_error (codes "r/l"))
      ∷ Announcement.directory_complete (entry_at (pending_root (codes "r"))) []
      ∷ []
unfolding announcements look active_directory_identity
announcements-example = refl
