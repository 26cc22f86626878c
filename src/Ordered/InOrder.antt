-- ===== src/Ordered/InOrder.antt =====
-- Every item leaves the queue, in the order of the sequence numbers (src/runtime_pipeline.rs,
-- src/ordered/engine.rs).
use rushfind.Prelude.{
  length-remove-some, lookup-short, lookup-remove-some, ltb, lookup-insert_same,
  lookup-insert_other, refl, sym, ◌∙◌, lookup-remove_other, subst, inr, ap, ◌==◌, inl, arith,
  Bool-cases, Option-cases, next_word_small, length, next_word, NumberMap, ◌≤◌, ◌⊎◌, ◌^◌, ◌≡◌, ◌<◌,
  ℕ, zero, suc, none, some, List, [], ◌∷◌, ◌++◌, lookup, remove,
}
use rushfind.Ordered.ReadyQueue.{default_queue, popped, insert_item, pop_next, OrderedReadyQueue}
use rushfind.Ordered.Recorded.{record_arrival, record_all, record_ready, Recording}

-- The items of the sequence numbers below n.
abbrev pub items_below : {A : Type 0} → (ℕ → A) → ℕ → List A
items_below item zero = []
items_below item (suc n) = items_below item n ++ (item n ∷ [])

-- The number is among the arrivals.
abbrev pub Arrives : {A : Type 0} → ℕ → List (ℕ × A) → Type 0
Arrives k [] = ⊥
Arrives k ((sequence, a) ∷ arrivals) = (sequence ≡ k) ⊎ Arrives k arrivals

module _ {A : Type 0} (item : ℕ → A) (n : ℕ) where
  -- Each arrival is the item of its number, which is below n.
  abbrev pub AreNumbered : List (ℕ × A) → Type 0
  AreNumbered [] = Unit
  AreNumbered ((sequence, a) ∷ arrivals) =
      (a ≡ item sequence) × (sequence < n) × AreNumbered arrivals

  -- What left is what comes first, and the buffer holds items under their numbers.
  abbrev InStep : Recording A → Type 0
  InStep (queue, committed) =
      (committed ≡ items_below item queue.next_sequence)
      × (queue.next_sequence ≤ n)
      × ((k : ℕ) (a : A) → lookup k queue.buffered ≡ some a → (a ≡ item k) × (k < n))

  -- The item left or waits in the buffer.
  abbrev IsKept : ℕ → Recording A → Type 0
  IsKept k (queue, committed) =
      (k < queue.next_sequence) ⊎ (lookup k queue.buffered ≡ some (item k))

  module _ (small : n < 2 ^ 64) where
    after_pop : OrderedReadyQueue A → OrderedReadyQueue A
    after_pop queue = record {
      next_sequence = next_word queue.next_sequence;
      buffered = remove queue.next_sequence queue.buffered;
    }

    pop-InStep :
        (queue : OrderedReadyQueue A) (committed : List A) (a : A)
        → lookup queue.next_sequence queue.buffered ≡ some a
        → InStep (queue, committed)
        → InStep (after_pop queue, committed ++ (a ∷ []))
    unfolding after_pop
    pop-InStep queue committed a e (c, le, b) = (
      ap (λ items. items ++ (a ∷ [])) c
          ∙ ap (λ x. items_below item queue.next_sequence ++ (x ∷ [])) (b _ a e).0
          ∙ ap (items_below item) (sym next),
      omega (arith, next, (b _ a e).1),
      λ k a' e'. b k a' (lookup-remove-some queue.next_sequence k queue.buffered a' e'),
    )
      where
        next : next_word queue.next_sequence ≡ suc queue.next_sequence
        next = next_word_small queue.next_sequence (omega (arith, (b _ a e).1))

    pop-IsKept :
        (k : ℕ) (queue : OrderedReadyQueue A) (committed : List A) (a : A)
        → InStep (queue, committed)
        → lookup queue.next_sequence queue.buffered ≡ some a
        → IsKept k (queue, committed)
        → IsKept k (after_pop queue, committed ++ (a ∷ []))
    unfolding after_pop
    pop-IsKept k queue committed a g e h = elim h [
      | inl before ↦ inl (omega (arith, next))
      | inr waits ↦ elim (Bool-cases (queue.next_sequence == k)) [
        | inl same ↦ inl (ground (arith, next))
        | inr differs ↦
            inr (lookup-remove_other k queue.next_sequence queue.buffered (ground arith) ∙ waits)
      ]
    ]
      where
        next : next_word queue.next_sequence ≡ suc queue.next_sequence
        next = next_word_small queue.next_sequence (omega (arith, (g.2 _ a e).1))

    record_ready-none :
        (fuel : ℕ) (queue : OrderedReadyQueue A) (committed : List A)
        → lookup queue.next_sequence queue.buffered ≡ none
        → record_ready (suc fuel) (queue, committed) ≡ (queue, committed)
    unfolding record_ready pop_next
    record_ready-none fuel queue committed e = rw (e, record_ready) refl

    record_ready-some :
        (fuel : ℕ) (queue : OrderedReadyQueue A) (committed : List A) (a : A)
        → lookup queue.next_sequence queue.buffered ≡ some a
        → record_ready (suc fuel) (queue, committed)
          ≡ record_ready fuel (after_pop queue, committed ++ (a ∷ []))
    unfolding record_ready pop_next after_pop
    record_ready-some fuel queue committed a e =
        rw (e, record_ready)
          (ap (λ o. record_ready fuel ((popped queue o).1, committed ++ (a ∷ []))) e)

    -- In step still, with no item lost, and the next item is not there yet.
    Settled : Recording A → Recording A → Type 0
    Settled before after =
        InStep after
        × ((k : ℕ) → IsKept k before → IsKept k after)
        × (lookup after.0.next_sequence after.0.buffered ≡ none)

    shorter :
        (queue : OrderedReadyQueue A) (a : A) {fuel : ℕ}
        → lookup queue.next_sequence queue.buffered ≡ some a
        → length queue.buffered ≤ suc fuel
        → length (after_pop queue).buffered ≤ fuel
    unfolding after_pop
    shorter queue a e le = omega (arith, length-remove-some queue.next_sequence queue.buffered a e)

    record_ready-Settled :
        (fuel : ℕ) (queue : OrderedReadyQueue A) (committed : List A)
        → length queue.buffered ≤ fuel
        → InStep (queue, committed)
        → Settled (queue, committed) (record_ready fuel (queue, committed))
    unfolding Settled record_ready
    record_ready-Settled zero queue committed le g =
        (g, (λ k h. h), lookup-short queue.next_sequence queue.buffered le)
    record_ready-Settled (suc fuel) queue committed le g =
        elim (Option-cases (lookup queue.next_sequence queue.buffered)) [
          | inl e ↦
              subst (Settled (queue, committed)) (sym (record_ready-none fuel queue committed e))
                (g, (λ k h. h), e)
          | inr (a, e) ↦
              let later =
                record_ready-Settled fuel (after_pop queue) (committed ++ (a ∷ []))
                  (shorter queue a e le) (pop-InStep queue committed a e g) in
              subst (Settled (queue, committed)) (sym (record_ready-some fuel queue committed a e))
                (later.0, (λ k h. later.1 k (pop-IsKept k queue committed a g e h)), later.2)
        ]

    insert-InStep :
        (sequence : ℕ) (a : A) (queue : OrderedReadyQueue A) (committed : List A)
        → a ≡ item sequence
        → sequence < n
        → InStep (queue, committed)
        → InStep (insert_item sequence a queue, committed)
    unfolding insert_item
    insert-InStep sequence a queue committed e lt (c, le, b) = (
      c,
      le,
      λ k a' e'. elim (Bool-cases (sequence == k)) [
        | inl same ↦
            let eq : sequence ≡ k = ground arith in
            let s = lookup-insert_same sequence a queue.buffered in
            subst
              (λ j.
                lookup j (insert_item sequence a queue).buffered ≡ some a'
                → (a' ≡ item j) × (j < n))
              eq (λ e''. (cc, lt)) e'
        | inr differs ↦
            b k a' (sym (lookup-insert_other k sequence a queue.buffered (ground arith)) ∙ e')
      ],
    )

    insert-IsKept :
        (k sequence : ℕ) (a : A) (queue : OrderedReadyQueue A) (committed : List A)
        → a ≡ item sequence
        → IsKept k (queue, committed)
        → IsKept k (insert_item sequence a queue, committed)
    unfolding insert_item
    insert-IsKept k sequence a queue committed e (inl before) = inl before
    insert-IsKept k sequence a queue committed e (inr waits) = elim (Bool-cases (sequence == k)) [
      | inl same ↦ inr (
          let eq : sequence ≡ k = ground arith in
          subst (λ j. lookup j (insert_item sequence a queue).buffered ≡ some (item j)) eq
            (lookup-insert_same sequence a queue.buffered ∙ ap some e))
      | inr differs ↦ inr (lookup-insert_other k sequence a queue.buffered (ground arith) ∙ waits)
    ]

    record_arrival-Settled :
        (sequence : ℕ) (a : A) (queue : OrderedReadyQueue A) (committed : List A)
        → a ≡ item sequence
        → sequence < n
        → InStep (queue, committed)
        → Settled
            (insert_item sequence a queue, committed)
            (record_arrival sequence a (queue, committed))
    unfolding record_arrival
    record_arrival-Settled sequence a queue committed e lt g =
        record_ready-Settled (length (insert_item sequence a queue).buffered)
          (insert_item sequence a queue) committed (omega arith)
          (insert-InStep sequence a queue committed e lt g)

    arrived :
        (sequence : ℕ) (a : A) (queue : OrderedReadyQueue A)
        → a ≡ item sequence
        → lookup sequence (insert_item sequence a queue).buffered ≡ some (item sequence)
    unfolding insert_item
    arrived sequence a queue e = lookup-insert_same sequence a queue.buffered ∙ ap some e

    -- The items that arrive are kept, and so are those that were.
    record_all-Settled :
        (arrivals : List (ℕ × A)) (queue : OrderedReadyQueue A) (committed : List A)
        → AreNumbered arrivals
        → InStep (queue, committed)
        → lookup queue.next_sequence queue.buffered ≡ none
        → let after = record_all arrivals (queue, committed) in
          InStep after
          × ((k : ℕ) → Arrives k arrivals ⊎ IsKept k (queue, committed) → IsKept k after)
          × (lookup after.0.next_sequence after.0.buffered ≡ none)
    unfolding record_all Settled
    record_all-Settled [] queue committed h g d =
        (g, (λ k kept. elim kept [ inl impossible ↦ absurd impossible | inr there ↦ there ]), d)
    record_all-Settled ((sequence, a) ∷ arrivals) queue committed h g d =
        let first = record_arrival-Settled sequence a queue committed h.0 h.1 g in
        let after = record_arrival sequence a (queue, committed) in
        let rest = record_all-Settled arrivals after.0 after.1 h.2 first.0 first.2 in
        (
          rest.0,
          (λ k kept. elim kept [
            | inl (inl same) ↦ rest.1 k (
                inr (
                  first.1 k (
                    inr (
                      subst (λ j. lookup j (insert_item sequence a queue).buffered ≡ some (item j))
                        same (arrived sequence a queue h.0)))))
            | inl (inr later) ↦ rest.1 k (inl later)
            | inr there ↦
                rest.1 k (inr (first.1 k (insert-IsKept k sequence a queue committed h.0 there)))
          ]),
          rest.2,
        )

-- If every sequence number below n arrives and no other, each with the item of its number, then the items
-- of the numbers below n leave the queue, each once and in order.
pub record_all-items_below :
    {A : Type 0} (item : ℕ → A) (n : ℕ) (arrivals : List (ℕ × A))
    → n < 2 ^ 64
    → AreNumbered item n arrivals
    → ((k : ℕ) → k < n → Arrives k arrivals)
    → (record_all arrivals (default_queue A, [])).1 ≡ items_below item n
unfolding lookup
record_all-items_below {A = A} item n arrivals small numbered all =
    let after = record_all arrivals (default_queue A, []) in
    let settled =
      record_all-Settled item n small arrivals (default_queue A) [] numbered
        (refl, omega arith, λ k a e. absurd (cc)) refl in
    settled.0.0
    ∙ ap (items_below item)
        (reached after settled.0.1 settled.2 (λ k lt. settled.1 k (inl (all k lt))))
  where
    waits_or_not :
        (m : ℕ) (buffered : NumberMap A)
        → (m < m) ⊎ (lookup m buffered ≡ some (item m))
        → lookup m buffered ≡ none
        → ⊥
    waits_or_not m buffered (inl before) e = omega arith
    waits_or_not m buffered (inr waits) e = cc

    reached :
        (after : Recording A)
        → after.0.next_sequence ≤ n
        → lookup after.0.next_sequence after.0.buffered ≡ none
        → ((k : ℕ)
            → k < n
            → (k < after.0.next_sequence) ⊎ (lookup k after.0.buffered ≡ some (item k)))
        → after.0.next_sequence ≡ n
    reached after le stopped kept = elim (Bool-cases (ltb after.0.next_sequence n)) [
      | inl short ↦ absurd (
          waits_or_not after.0.next_sequence after.0.buffered
            (kept after.0.next_sequence (ground arith)) stopped)
      | inr full ↦ ground arith
    ]
