-- ===== src/Walk/Refinement.antt =====
-- The loop with its stack hands over what the tree holds, in the tree's order (src/walker.rs).
use rushfind.Walk.Types.{
  PendingPath, OrderedFrame, OrderedWalkDirective, WalkBackend, TraversalOptions, WalkEvent, visit,
  complete,
}
use rushfind.Walk.Walker.{
  walk_loop, step_frame, complete_frames, comes_last, walk_ordered_with_backend, root_frames,
}
use rushfind.Walk.Events.{
  roots, Announcement, Sight, look, announcements, EndsWithin, announce, announce_all, Each,
  flat_map, last_of,
}
use rushfind.Walk.Follows.{say, visits, Follows, say-then, look-Follows}
use rushfind.Entry.Context.{EntryContext}
use rushfind.Control.Verdict.{TraversalControl}
use rushfind.Diagnostics.{Result}
use rushfind.Walk.Emit.{emit_scheduled, Walk, pure, after, after_assoc, after_ext, after-pure}
use rushfind.Prelude.{
  append-nil, Bytes, subst, zero, sym, refl, ◌∙◌, append_assoc, suc, ◌∷◌, arith, ◌+◌, ◌≡◌, ℕ, ◌++◌,
  ap, if◌then◌else◌, [], Bool, List, true, false, inl, inr,
}
use rushfind.Walk.Descend.{pending_root}

module _ (backend : WalkBackend) (control : EntryContext → Result TraversalControl)
    (options : TraversalOptions) {S : Type 0}
    (emit : S → WalkEvent → Result OrderedWalkDirective × S) where
  abbrev tell : List Announcement → Walk S (Unit {0})
  tell = say backend control options emit

  -- Enough fuel for these frames goes through them, and leaves the rest of it to the frames behind.
  abbrev Runs : List OrderedFrame → List Announcement → Type 0
  Runs frames told =
      (needed : ℕ) × ((total fuel : ℕ) (stack : List OrderedFrame) (state : ℕ × S)
        → total ≡ needed + fuel
        → walk_loop backend control options emit total (frames ++ stack) state
          ≡ after (tell told state) (λ _. walk_loop backend control options emit fuel stack))

  Runs-none : Runs [] []
  unfolding announce_all
  Runs-none = (
    0,
    λ total fuel stack state e.
        ap (λ n. walk_loop backend control options emit n stack state) (omega (arith, e)),
  )

  Runs-append :
      (frames more : List OrderedFrame) (told also : List Announcement)
      → Runs frames told
      → Runs more also
      → Runs (frames ++ more) (told ++ also)
  Runs-append frames more told also (n, f) (m, g) = (
    n + m,
    λ total fuel stack state e.
        ap (λ all. walk_loop backend control options emit total all state)
          (append_assoc frames more stack)
        ∙ f total (m + fuel) (more ++ stack) state (omega (arith, e))
        ∙ say-then backend control options emit (tell told) told also
            (walk_loop backend control options emit (m + fuel) (more ++ stack))
            (λ _. walk_loop backend control options emit fuel stack) (λ _. refl)
            (λ s. g (m + fuel) fuel stack s refl) state,
  )

  -- One round for the frame that completes a directory.
  Runs-complete :
      (pending : PendingPath) (e : EntryContext) (is_directory : Bool)
      → Runs
          (complete_frames backend control options pending e is_directory)
          (last_of backend control options pending e is_directory)
  unfolding walk_loop step_frame announce_all announce
  Runs-complete pending e is_directory = by_test (comes_last backend control options is_directory)
    where
      by_test :
          (b : Bool)
          → Runs
              (if b then complete e pending.ancestor_barriers ∷ [] else [])
              (if b then Announcement.directory_complete e pending.ancestor_barriers ∷ [] else [])
      by_test false = Runs-none
      by_test true = (1, λ total fuel stack state e'. round total fuel stack state e')
        where
          round :
              (total fuel : ℕ) (stack : List OrderedFrame) (state : ℕ × S)
              → total ≡ 1 + fuel
              → walk_loop backend control options emit total
                  (complete e pending.ancestor_barriers ∷ stack)
                  state
                ≡ after
                    (tell (Announcement.directory_complete e pending.ancestor_barriers ∷ []) state)
                    (λ _. walk_loop backend control options emit fuel stack)
          round zero fuel stack state d = absurd (omega (arith, d))
          round (suc t) fuel stack state d =
              let d' : t ≡ fuel = omega (arith, d) in
              let said =
                emit_scheduled emit WalkEvent.directory_complete e pending.ancestor_barriers
                  state in
              after_assoc said (λ _. pure [])
                (λ pushed. walk_loop backend control options emit t (pushed ++ stack))
              ∙ after_ext said (λ _. walk_loop backend control options emit t stack)
                  (λ _. walk_loop backend control options emit fuel stack)
                  (λ _ s. ap (λ n. walk_loop backend control options emit n stack s) d')
              ∙ sym (
                  after_assoc said (λ _. pure tt)
                    (λ _. walk_loop backend control options emit fuel stack))

  -- One round for a path, whose body pushes `frames`, and then these.
  round-visit :
      (pending : PendingPath) (frames : List OrderedFrame) (front behind : List Announcement)
      → ((state : ℕ × S)
          → step_frame backend control options emit (visit pending) state
            ≡ after (tell front state) (λ _. pure frames))
      → Runs frames behind
      → Runs (visit pending ∷ []) (front ++ behind)
  unfolding walk_loop
  round-visit pending frames front behind said (n, run) =
      (suc n, λ total fuel stack state d. round total fuel stack state d)
    where
      round :
          (total fuel : ℕ) (stack : List OrderedFrame) (state : ℕ × S)
          → total ≡ suc n + fuel
          → walk_loop backend control options emit total (visit pending ∷ stack) state
            ≡ after
                (tell (front ++ behind) state)
                (λ _. walk_loop backend control options emit fuel stack)
      round zero fuel stack state d = absurd (omega (arith, d))
      round (suc t) fuel stack state d =
          let d' : t ≡ n + fuel = omega (arith, d) in
          ap (λ r. after r (λ pushed. walk_loop backend control options emit t (pushed ++ stack)))
            (said state)
          ∙ after_assoc (tell front state) (λ _. pure frames)
              (λ pushed. walk_loop backend control options emit t (pushed ++ stack))
          ∙ say-then backend control options emit (tell front) front behind
              (walk_loop backend control options emit t (frames ++ stack))
              (λ _. walk_loop backend control options emit fuel stack) (λ _. refl)
              (λ s. run t fuel stack s d') state

  Runs-visit :
      (pending : PendingPath) (sight : Sight) (told : List PendingPath → List Announcement)
      → told [] ≡ []
      → Follows backend control options emit
          (step_frame backend control options emit (visit pending))
          sight
      → Runs (visits backend control options emit sight.children) (told sight.children)
      → Runs (visit pending ∷ []) (sight.front ++ (told sight.children ++ sight.back))
  Runs-visit pending sight told nothing (inl (none_left, said)) run =
      subst (λ kids. Runs (visit pending ∷ []) (sight.front ++ (told kids ++ sight.back)))
        (sym none_left)
        (subst (λ ts. Runs (visit pending ∷ []) (sight.front ++ (ts ++ sight.back))) (sym nothing)
          (subst (λ ts. Runs (visit pending ∷ []) ts) (append-nil (sight.front ++ sight.back))
            (round-visit pending [] (sight.front ++ sight.back) [] said Runs-none)))
  Runs-visit pending sight told nothing (inr (p, e, is_directory, back, said)) run =
      round-visit pending _ sight.front (told sight.children ++ sight.back) said (
        Runs-append (visits backend control options emit sight.children)
          (complete_frames backend control options p e is_directory) (told sight.children)
          sight.back run
          (subst (Runs (complete_frames backend control options p e is_directory)) (sym back)
            (Runs-complete p e is_directory)))

  Runs-flat_map :
      (height : ℕ)
      → ((pending : PendingPath)
          → EndsWithin backend control options height pending
          → Runs (visit pending ∷ []) (announcements backend control options height pending))
      → (paths : List PendingPath) → Each (EndsWithin backend control options height) paths
      → Runs
          (visits backend control options emit paths)
          (flat_map (announcements backend control options height) paths)
  Runs-flat_map height run [] ends = Runs-none
  Runs-flat_map height run (pending ∷ paths) ends =
      Runs-append (visit pending ∷ []) (visits backend control options emit paths)
        (announcements backend control options height pending)
        (flat_map (announcements backend control options height) paths) (run pending (ends.0))
        (Runs-flat_map height run paths (ends.1))

  Runs-announcements :
      (height : ℕ) (pending : PendingPath)
      → EndsWithin backend control options height pending
      → Runs (visit pending ∷ []) (announcements backend control options height pending)
  unfolding EndsWithin announcements
  Runs-announcements zero pending ends = absurd ends
  Runs-announcements (suc height) pending ends =
      Runs-visit pending (look backend control options pending)
        (flat_map (announcements backend control options height)) refl
        (look-Follows backend control options emit pending)
        (Runs-flat_map height (Runs-announcements height)
          (look backend control options pending).children ends)

  root_frames-visits :
      (paths : List Bytes)
      → visits backend control options emit (roots paths)
        ≡ root_frames backend control options emit paths
  root_frames-visits [] = refl
  root_frames-visits (path ∷ paths) =
      ap (λ rest. visit (pending_root path) ∷ rest) (root_frames-visits paths)

  -- Where the trees below the start paths have the given height, there is a number of rounds from which
  -- on the loop ends, and the walk does what handing over the announcements of the trees does, one tree
  -- after the other: each event is numbered when its turn comes, and the consumer may cut it short.
  pub walk_ordered_with_backend-announcements :
      (height : ℕ) (paths : List Bytes) (s : S)
      → Each (EndsWithin backend control options height) (roots paths)
      → (needed : ℕ) × ((spare : ℕ)
          → walk_ordered_with_backend backend control options emit (needed + spare) paths s
            ≡ announce_all backend control options emit
                (flat_map (announcements backend control options height) (roots paths))
                (0, s))
  unfolding walk_ordered_with_backend walk_loop
  walk_ordered_with_backend-announcements height paths s ends =
      let (needed, run) = Runs-flat_map height (Runs-announcements height) (roots paths) ends in
      (
        needed,
        λ spare.
            ap (λ frames. walk_loop backend control options emit (needed + spare) frames (0, s))
              (sym (root_frames-visits paths)
                ∙ sym (append-nil (visits backend control options emit (roots paths))))
            ∙ run (needed + spare) spare [] (0, s) refl
            ∙ after-pure (
                tell (flat_map (announcements backend control options height) (roots paths))
                  (0, s)),
      )
