-- ===== src/Ordered/ReadyQueue.antt =====
-- `OrderedReadyQueue` (src/runtime_pipeline.rs): items come in any order and leave in the order of their
-- sequence numbers.
use rushfind.Prelude.{ℕ, Option, none, some, [], NumberMap, insert, lookup, remove, next_word}

pub record OrderedReadyQueue (A : Type 0) : Type 0 where
  pub next_sequence : ℕ
  pub buffered : NumberMap A

abbrev pub default_queue : (A : Type 0) → OrderedReadyQueue A
default_queue A = record { next_sequence = 0; buffered = [] }

module _ {A : Type 0} where
  unfoldable pub insert_item : ℕ → A → OrderedReadyQueue A → OrderedReadyQueue A
  unfolding insert
  insert_item sequence item queue = record queue { buffered = insert sequence item queue.buffered }

  abbrev pub popped : OrderedReadyQueue A → Option A → Option A × OrderedReadyQueue A
  popped queue none = (none, queue)
  popped queue (some item) = (
    some item,
    record {
      next_sequence = next_word queue.next_sequence;
      buffered = remove queue.next_sequence queue.buffered;
    },
  )

  unfoldable pub pop_next : OrderedReadyQueue A → Option A × OrderedReadyQueue A
  unfolding lookup remove
  pop_next queue = popped queue (lookup queue.next_sequence queue.buffered)
