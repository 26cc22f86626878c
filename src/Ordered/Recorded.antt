-- ===== src/Ordered/Recorded.antt =====
-- What leaves the ready queue while items arrive, as a list: the receiving loop of src/ordered/engine.rs
-- without the commits, which the proofs are about.
use rushfind.Prelude.{refl, ◌≡◌, zero, length, suc, ℕ, none, some, List, [], ◌∷◌, ◌++◌}
use rushfind.Ordered.ReadyQueue.{OrderedReadyQueue, insert_item, pop_next}

-- The queue, and the items that left it so far.
abbrev pub Recording : Type 0 → Type 0
Recording A = OrderedReadyQueue A × List A

module _ {A : Type 0} where
  unfoldable pub record_ready : ℕ → Recording A → Recording A
  unfolding pop_next
  record_ready zero state = state
  record_ready (suc fuel) (queue, committed) = elim (pop_next queue).0 [
    | none ↦ (queue, committed)
    | some item ↦ record_ready fuel ((pop_next queue).1, committed ++ (item ∷ []))
  ]

  unfoldable pub record_arrival : ℕ → A → Recording A → Recording A
  unfolding insert_item record_ready
  record_arrival sequence item (queue, committed) =
      let filled = insert_item sequence item queue in
      record_ready (length filled.buffered) (filled, committed)

  unfoldable pub record_all : List (ℕ × A) → Recording A → Recording A
  unfolding record_arrival
  record_all [] state = state
  record_all ((sequence, item) ∷ arrivals) state =
      record_all arrivals (record_arrival sequence item state)

module _ {A : Type 0} (fuel : ℕ) (queue : OrderedReadyQueue A) (committed : List A) where
  pub record_ready-done :
      (pop_next queue).0 ≡ none → record_ready (suc fuel) (queue, committed) ≡ (queue, committed)
  unfolding record_ready
  record_ready-done e = rw (e, record_ready) refl

  pub record_ready-next :
      (item : A)
      → (pop_next queue).0 ≡ some item
      → record_ready (suc fuel) (queue, committed)
        ≡ record_ready fuel ((pop_next queue).1, committed ++ (item ∷ []))
  unfolding record_ready
  record_ready-next item e = rw (e, record_ready) refl
