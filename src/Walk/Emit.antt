-- ===== src/Walk/Emit.antt =====
-- Handing events over (src/walker.rs): the closure `emit`, and the two ways in which a walk is cut short,
-- `return Ok(())` and `?`.
use rushfind.Walk.Types.{WalkEvent, ScheduledEntry, OrderedWalkDirective, continue, stop}
use rushfind.Diagnostics.{err, ok, Diagnostic, Result}
use rushfind.Entry.Context.{EntryContext}
use rushfind.Prelude.{next_word, [], Option, ◌∷◌, none, refl, ◌≡◌, ℕ, List}

pub data Flow (A : Type 0) : Type 0 where
  next : A → Flow A
  -- `return Ok(())`
  stopped : Flow A
  -- `return Err(error)`
  failed : Diagnostic → Flow A
  -- of the model only: the walk ran past its fuel
  exhausted : Flow A

-- `scheduled_entry`
unfoldable pub scheduled_entry : EntryContext → ℕ → List ℕ → Option ℕ → ScheduledEntry
scheduled_entry entry sequence ancestor_barriers block_on_subtree = record {
  entry = entry;
  ticket = record {
    sequence = sequence;
    ancestor_barriers = ancestor_barriers;
    block_on_subtree = block_on_subtree;
  };
}

-- A part of a walk, from `next_sequence` and what `emit` has captured to the same behind it.
abbrev pub Walk : Type 0 → Type 0 → Type 0
Walk S A = ℕ × S → Flow A × (ℕ × S)

module _ {S : Type 0} where
  abbrev pub pure : {A : Type 0} → A → Walk S A
  pure a state = (Flow.next a, state)

  abbrev pub after : {A B : Type 0} → Flow A × (ℕ × S) → (A → Walk S B) → Flow B × (ℕ × S)
  after (Flow.next a, state) rest = rest a state
  after (Flow.stopped, state) rest = (Flow.stopped, state)
  after (Flow.failed error, state) rest = (Flow.failed error, state)
  after (Flow.exhausted, state) rest = (Flow.exhausted, state)

  infixl 5 ◌>=>◌
  abbrev pub ◌>=>◌ : {A B : Type 0} → Walk S A → (A → Walk S B) → Walk S B
  first >=> rest = λ state. after (first state) rest

  pub after_assoc :
      {A B C : Type 0} (first : Flow A × (ℕ × S)) (f : A → Walk S B) (g : B → Walk S C)
      → after (after first f) g ≡ after first (λ a state. after (f a state) g)
  after_assoc (Flow.next a, state) f g = refl
  after_assoc (Flow.stopped, state) f g = refl
  after_assoc (Flow.failed error, state) f g = refl
  after_assoc (Flow.exhausted, state) f g = refl

  pub after_ext :
      {A B : Type 0} (first : Flow A × (ℕ × S)) (f g : A → Walk S B)
      → ((a : A) (state : (ℕ × S)) → f a state ≡ g a state)
      → after first f ≡ after first g
  after_ext (Flow.next a, state) f g h = h a state
  after_ext (Flow.stopped, state) f g h = refl
  after_ext (Flow.failed error, state) f g h = refl
  after_ext (Flow.exhausted, state) f g h = refl

  pub after-pure : (first : Flow (Unit {0}) × (ℕ × S)) → after first (λ _. pure tt) ≡ first
  after-pure (Flow.next _, state) = refl
  after-pure (Flow.stopped, state) = refl
  after-pure (Flow.failed error, state) = refl
  after-pure (Flow.exhausted, state) = refl

module _ {S : Type 0} (emit : S → WalkEvent → Result OrderedWalkDirective × S) where
  -- `emit(WalkEvent::Error(error))?`, which passes over the directive
  abbrev on_error : ℕ → Result OrderedWalkDirective × S → Flow (Unit {0}) × (ℕ × S)
  on_error n (ok directive, s) = (Flow.next tt, (n, s))
  on_error n (err error, s) = (Flow.failed error, (n, s))

  unfoldable pub emit_error : Diagnostic → Walk S (Unit {0})
  emit_error error (n, s) = on_error n (emit s (WalkEvent.failure error))

  -- `if emit(…)? == Stop { return Ok(()); } next_sequence += 1;`
  abbrev on_scheduled : ℕ → Result OrderedWalkDirective × S → Flow (Unit {0}) × (ℕ × S)
  on_scheduled n (ok continue, s) = (Flow.next tt, (next_word n, s))
  on_scheduled n (ok stop, s) = (Flow.stopped, (n, s))
  on_scheduled n (err error, s) = (Flow.failed error, (n, s))

  unfoldable pub emit_scheduled :
      (ScheduledEntry → WalkEvent) → EntryContext → List ℕ → Walk S (Unit {0})
  unfolding scheduled_entry
  emit_scheduled event entry ancestor_barriers (n, s) =
      on_scheduled n (emit s (event (scheduled_entry entry n ancestor_barriers none)))

  -- `for error in diagnostics`
  unfoldable pub emit_errors : List Diagnostic → Walk S (Unit {0})
  unfolding emit_error
  emit_errors [] = pure tt
  emit_errors (error ∷ errors) = emit_error error >=> λ _. emit_errors errors
