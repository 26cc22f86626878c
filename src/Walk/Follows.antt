-- ===== src/Walk/Follows.antt =====
-- The body of the loop hands over what there is to see at a path, and pushes the rest (src/walker.rs).
use rushfind.Walk.Types.{
  DiscoveredChild, visit, PendingPath, OrderedFrame, OrderedWalkDirective, WalkBackend,
  TraversalOptions, WalkEvent,
}
use rushfind.Walk.Walker.{
  is_some, visit_loaded, visit_controlled, visit_identified, visit_decided, visit_listed,
  step_frame,
}
use rushfind.Prelude.{inl, inr, append-nil, append_assoc, none, some}
use rushfind.Walk.Events.{
  listed, decided, shown, look, only_failure, first_of, pending_children, last_of, failures, Sight,
  Announcement, announce, announce_all,
}
use rushfind.Entry.Context.{EntryContext}
use rushfind.Control.Verdict.{TraversalControl}
use rushfind.Diagnostics.{ok, err, ◌>>=◌, Diagnostic, Result}
use rushfind.Walk.Emit.{
  emit_scheduled, after-pure, pure, emit_error, emit_errors, Walk, after, after_assoc, after_ext,
}
use rushfind.Prelude.{
  false, true, ◌⊎◌, Option, if◌then◌else◌, Bool, ap, refl, [], sym, ◌∙◌, ◌∷◌, ◌≡◌, ◌++◌, ℕ, List,
}
use rushfind.Walk.Walker.{
  child_frames, comes_first, complete_frames, comes_last, emit_first, complete_now,
}
use rushfind.Entry.Types.{FileIdentity}
use rushfind.Walk.Descend.{read_children, pending_child}

module _ (backend : WalkBackend) (control : EntryContext → Result TraversalControl)
    (options : TraversalOptions) {S : Type 0}
    (emit : S → WalkEvent → Result OrderedWalkDirective × S) where
  abbrev pub say : List Announcement → Walk S (Unit {0})
  say = announce_all backend control options emit

  pub announce_all-append :
      (a b : List Announcement) (state : ℕ × S)
      → announce_all backend control options emit (a ++ b) state
        ≡ after
            (announce_all backend control options emit a state)
            (λ _. announce_all backend control options emit b)
  unfolding announce_all
  announce_all-append [] b state = refl
  announce_all-append (x ∷ a) b state =
      after_ext (announce backend control options emit x state) _ _
        (λ _ s. announce_all-append a b s)
      ∙ sym (after_assoc (announce backend control options emit x state) _ _)

  abbrev pub visits : List PendingPath → List OrderedFrame
  visits [] = []
  visits (pending ∷ rest) = visit pending ∷ visits rest

  -- A part of the loop's body hands over all that there is to see, where no child is left for later, or
  -- what stands in front of the children, and pushes these and the directory's completion.
  abbrev pub Follows : Walk S (List OrderedFrame) → Sight → Type 0
  Follows body sight =
      ((sight.children ≡ [])
        × ((state : ℕ × S)
            → body state ≡ after (say (sight.front ++ sight.back) state) (λ _. pure [])))
      ⊎ ((pending : PendingPath) × (e : EntryContext) × (is_directory : Bool) × (sight.back
            ≡ last_of backend control options pending e is_directory)
          × ((state : ℕ × S)
              → body state
                ≡ after (say sight.front state) (λ _. pure (
                    visits sight.children
                    ++ complete_frames backend control options pending e is_directory))))

  say-failure :
      (error : Diagnostic) (state : ℕ × S)
      → emit_error emit error state ≡ say (Announcement.failure error ∷ []) state
  unfolding announce_all announce
  say-failure error state = sym (after-pure (emit_error emit error state))

  say-first :
      (pending : PendingPath) (e : EntryContext) (is_directory : Bool) (state : ℕ × S)
      → emit_first backend control options emit pending e is_directory state
        ≡ say (first_of backend control options pending e is_directory) state
  unfolding announce_all announce emit_first
  say-first pending e is_directory state =
      by_test (comes_first backend control options is_directory)
    where
      by_test :
          (b : Bool)
          → (if b then emit_scheduled emit WalkEvent.entry e pending.ancestor_barriers else pure tt)
              state
            ≡ say (if b then Announcement.entry e pending.ancestor_barriers ∷ [] else []) state
      by_test true = sym (after-pure _)
      by_test false = refl

  say-last :
      (pending : PendingPath) (e : EntryContext) (is_directory : Bool) (state : ℕ × S)
      → complete_now backend control options emit pending e is_directory state
        ≡ say (last_of backend control options pending e is_directory) state
  unfolding announce_all announce complete_now
  say-last pending e is_directory state = by_test (comes_last backend control options is_directory)
    where
      by_test :
          (b : Bool)
          → (if b
                then emit_scheduled emit WalkEvent.directory_complete e pending.ancestor_barriers
                else pure tt)
              state
            ≡ say
                (if b then Announcement.directory_complete e pending.ancestor_barriers ∷ [] else [])
                state
      by_test true = sym (after-pure _)
      by_test false = refl

  say-errors :
      (errors : List Diagnostic) (state : ℕ × S)
      → emit_errors emit errors state ≡ say (failures errors) state
  unfolding announce_all announce emit_errors
  say-errors [] state = refl
  say-errors (error ∷ errors) state =
      after_ext (emit_error emit error state) _ _ λ _ s. say-errors errors s

  visits-pending_children :
      (pending : PendingPath) (ancestry : List FileIdentity) (root_device : Option ℕ)
      (children : List DiscoveredChild)
      → visits (pending_children pending ancestry root_device children)
        ≡ child_frames pending ancestry root_device children
  visits-pending_children pending ancestry root_device [] = refl
  visits-pending_children pending ancestry root_device (child ∷ children) =
      ap (λ rest. visit (pending_child pending ancestry root_device child) ∷ rest)
        (visits-pending_children pending ancestry root_device children)

  -- Two parts, one behind the other, say what they say together.
  pub say-then :
      {A : Type 0} (first : Walk S (Unit {0})) (a b : List Announcement) (second : Walk S A)
      (rest : Unit {0} → Walk S A)
      → ((state : ℕ × S) → first state ≡ say a state)
      → ((state : ℕ × S) → second state ≡ after (say b state) rest)
      → (state : ℕ × S) → after (first state) (λ _. second) ≡ after (say (a ++ b) state) rest
  say-then first a b second rest f g state =
      ap (λ r. after r (λ _. second)) (f state)
      ∙ after_ext (say a state) _ _ (λ _ s. g s)
      ∙ sym (after_assoc (say a state) (λ _. say b) rest)
      ∙ ap (λ r. after r rest) (sym (announce_all-append a b state))

  say-two :
      (first second : Walk S (Unit {0})) (a b : List Announcement)
      → ((state : ℕ × S) → first state ≡ say a state)
      → ((state : ℕ × S) → second state ≡ say b state)
      → (state : ℕ × S) → after (first state) (λ _. second) ≡ say (a ++ b) state
  say-two first second a b f g state =
      ap (λ r. after r (λ _. second)) (f state)
      ∙ after_ext (say a state) _ _ (λ _ s. g s)
      ∙ sym (announce_all-append a b state)

  failure-Follows :
      (error : Diagnostic)
      → Follows (λ state. after (emit_error emit error state) (λ _. pure [])) (only_failure error)
  failure-Follows error =
      inl (refl, λ state. ap (λ r. after r (λ _. pure [])) (say-failure error state))

  listed-Follows :
      (pending : PendingPath) (e : EntryContext) (is_directory : Bool)
      (ancestry : List FileIdentity) (root_device : Option ℕ)
      (children : Result (List DiscoveredChild × List Diagnostic))
      → Follows
          (λ state.
            after (emit_first backend control options emit pending e is_directory state) (λ _.
              visit_listed backend control options emit pending e is_directory ancestry root_device
                children))
          (listed backend control options pending e is_directory ancestry root_device children)
  unfolding visit_listed listed
  listed-Follows pending e is_directory ancestry root_device (err error) =
      let first = first_of backend control options pending e is_directory in
      let last = last_of backend control options pending e is_directory in
      inl (
        refl,
        λ state.
            say-then (emit_first backend control options emit pending e is_directory) first
              (Announcement.failure error ∷ last)
              (visit_listed backend control options emit pending e is_directory ancestry root_device
                (err error))
              (λ _. pure []) (say-first pending e is_directory)
              (λ s.
                ap (λ r. after r (λ _. pure []))
                  (say-two (emit_error emit error)
                    (complete_now backend control options emit pending e is_directory)
                    (Announcement.failure error ∷ []) last (say-failure error)
                    (say-last pending e is_directory) s))
              state
            ∙ ap (λ a. after (say a state) (λ _. pure []))
                (sym (append_assoc first (Announcement.failure error ∷ []) last)),
      )
  listed-Follows pending e is_directory ancestry root_device (ok (children, errors)) =
      let behind = complete_frames backend control options pending e is_directory in
      let found = pending_children pending ancestry root_device children in
      inr (
        pending,
        e,
        is_directory,
        refl,
        say-then (emit_first backend control options emit pending e is_directory)
            (first_of backend control options pending e is_directory) (failures errors)
            (visit_listed backend control options emit pending e is_directory ancestry root_device
              (ok (children, errors)))
            (λ _. pure (visits found ++ behind)) (say-first pending e is_directory)
            λ s.
              ap
                (λ r.
                  after r
                    (λ _. pure (child_frames pending ancestry root_device children ++ behind)))
                (say-errors errors s)
              ∙ ap (λ frames. after (say (failures errors) s) (λ _. pure (frames ++ behind)))
                  (sym (visits-pending_children pending ancestry root_device children)),
      )

  decided-Follows :
      (pending : PendingPath) (e : EntryContext) (is_directory : Bool)
      (decision : Result (Option (List FileIdentity × Option ℕ)))
      → Follows
          (λ state.
            after
              (emit_first backend control options emit pending e is_directory state)
              (λ _. visit_decided backend control options emit pending e is_directory decision))
          (decided backend control options pending e is_directory decision)
  unfolding visit_decided decided
  decided-Follows pending e is_directory (err error) =
      let first = first_of backend control options pending e is_directory in
      inl (
        refl,
        λ state.
            say-then (emit_first backend control options emit pending e is_directory) first
              (Announcement.failure error ∷ [])
              (visit_decided backend control options emit pending e is_directory (err error))
              (λ _. pure []) (say-first pending e is_directory)
              (λ s. ap (λ r. after r (λ _. pure [])) (say-failure error s)) state
            ∙ ap (λ a. after (say a state) (λ _. pure []))
                (sym (append-nil (first ++ Announcement.failure error ∷ []))),
      )
  decided-Follows pending e is_directory (ok none) = inl (
    refl,
    say-then (emit_first backend control options emit pending e is_directory)
        (first_of backend control options pending e is_directory)
        (last_of backend control options pending e is_directory)
        (visit_decided backend control options emit pending e is_directory (ok none)) (λ _. pure [])
        (say-first pending e is_directory)
        λ s. ap (λ r. after r (λ _. pure [])) (say-last pending e is_directory s),
  )
  decided-Follows pending e is_directory (ok (some (ancestry, root_device))) =
      listed-Follows pending e is_directory ancestry root_device
        (read_children backend pending.path)

  identified-Follows :
      (pending : PendingPath) (e : EntryContext) (verdict : TraversalControl)
      (identity : Result (Option FileIdentity))
      → Follows
          (visit_identified backend control options emit pending e verdict identity)
          (shown backend control options (identity >>= λ i. ok (e, verdict, i)) pending)
  unfolding visit_identified shown
  identified-Follows pending e verdict (err error) = failure-Follows error
  identified-Follows pending e verdict (ok identity) =
      decided-Follows pending e (is_some identity) _

  controlled-Follows :
      (pending : PendingPath) (e : EntryContext) (verdict : Result TraversalControl)
      → Follows (visit_controlled backend control options emit pending e verdict) (
          shown backend control options
            (verdict >>= λ v. backend.active_directory_identity e >>= λ i. ok (e, v, i))
            pending)
  unfolding visit_controlled shown
  controlled-Follows pending e (err error) = failure-Follows error
  controlled-Follows pending e (ok verdict) =
      identified-Follows pending e verdict (backend.active_directory_identity e)

  loaded-Follows :
      (pending : PendingPath) (loaded : Result EntryContext)
      → Follows (visit_loaded backend control options emit pending loaded) (
          shown backend control options
            (loaded >>= λ e.
              control e >>= λ v. backend.active_directory_identity e >>= λ i. ok (e, v, i))
            pending)
  unfolding visit_loaded shown
  loaded-Follows pending (err error) = failure-Follows error
  loaded-Follows pending (ok e) = controlled-Follows pending e (control e)

  pub look-Follows :
      (pending : PendingPath)
      → Follows
          (step_frame backend control options emit (visit pending))
          (look backend control options pending)
  unfolding step_frame look
  look-Follows pending = loaded-Follows pending (backend.load_entry pending)
