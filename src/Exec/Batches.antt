-- ===== src/Exec/Batches.antt =====
-- Batches hold every path once, in order, and fit the limit (src/exec/batch.rs, src/exec/ordered.rs).
use rushfind.Prelude.{
  ap, append_assoc, sym, ◌∙◌, append-nil, arith, refl, ◌≡◌, ℕ, Bool, true, false, List, [], ◌∷◌,
  ◌++◌, Bytes, is_empty, if◌then◌else◌, ◌+◌, ◌≤◌,
}
use rushfind.Exec.Batch.{new_batch, enqueue_all, PendingBatch, ReadyBatch, enqueue}
use rushfind.Plan.Types.{BatchedExecAction}
use rushfind.Exec.Enqueue.{
  fits, enqueue-Enqueues, IsCounted, total_cost, paths_of, Enqueues, AreWithin, only_fitting,
}

module _ (execdir_placeholder : Bytes → Bytes) where
  AreWithin-append :
      (batch : PendingBatch) (first rest : List ReadyBatch)
      → AreWithin execdir_placeholder batch first
      → AreWithin execdir_placeholder batch rest
      → AreWithin execdir_placeholder batch (first ++ rest)
  AreWithin-append batch [] rest h k = k
  AreWithin-append batch (ready ∷ first) rest h k =
      (h.0, h.1, h.2, AreWithin-append batch first rest h.3 k)

  paths_of-append :
      (first rest : List ReadyBatch) → paths_of (first ++ rest) ≡ paths_of first ++ paths_of rest
  paths_of-append [] rest = refl
  paths_of-append (ready ∷ first) rest =
      ap (λ later. ready.paths ++ later) (paths_of-append first rest)
      ∙ sym (append_assoc ready.paths (paths_of first) (paths_of rest))

  -- The limit counts: the command, what it always costs, and the maximum.
  SameLimit : PendingBatch → PendingBatch → Type 0
  SameLimit a b = (a.spec ≡ b.spec) × (a.fixed_bytes ≡ b.fixed_bytes) × (a.max_bytes ≡ b.max_bytes)

  only_fitting-same :
      (a b : PendingBatch) (paths : List Bytes)
      → SameLimit a b
      → only_fitting execdir_placeholder a paths ≡ only_fitting execdir_placeholder b paths
  unfolding SameLimit
  only_fitting-same a b [] h = refl
  only_fitting-same a b (path ∷ paths) (s, f, m) =
      rw (s, f, m, only_fitting-same a b paths (s, f, m)) refl

  AreWithin-same :
      (a b : PendingBatch) (batches : List ReadyBatch)
      → SameLimit a b
      → AreWithin execdir_placeholder a batches
      → AreWithin execdir_placeholder b batches
  unfolding SameLimit
  AreWithin-same a b [] h w = tt
  AreWithin-same a b (ready ∷ batches) (s, f, m) (ne, spec, le, rest) =
      (ne, spec ∙ s, omega arith, AreWithin-same a b batches (s, f, m) rest)

  fitting_cons :
      (b : Bool) (path : Bytes) (paths : List Bytes)
      → (if b then path ∷ [] else []) ++ paths ≡ (if b then path ∷ paths else paths)
  fitting_cons true path paths = refl
  fitting_cons false path paths = refl

  -- What a sequence of paths makes of a batch.
  EnqueuesAll : PendingBatch → List Bytes → List ReadyBatch × PendingBatch → Type 0
  EnqueuesAll batch paths (batches, pending) =
      (paths_of batches ++ pending.paths
        ≡ batch.paths ++ only_fitting execdir_placeholder batch paths)
      × AreWithin execdir_placeholder batch batches
      × IsCounted execdir_placeholder pending
      × SameLimit pending batch

  enqueue_all-EnqueuesAll :
      (batch : PendingBatch) (paths : List Bytes)
      → IsCounted execdir_placeholder batch
      → EnqueuesAll batch paths (enqueue_all execdir_placeholder paths batch)
  unfolding enqueue_all EnqueuesAll Enqueues SameLimit
  enqueue_all-EnqueuesAll batch [] counted =
      (sym (append-nil batch.paths), tt, counted, (refl, refl, refl))
  enqueue_all-EnqueuesAll batch (path ∷ paths) counted =
      let first = enqueue execdir_placeholder path batch in
      let h : Enqueues execdir_placeholder batch path first =
        enqueue-Enqueues execdir_placeholder batch path counted in
      let k : EnqueuesAll first.pending paths
          (enqueue_all execdir_placeholder paths first.pending) =
        enqueue_all-EnqueuesAll first.pending paths h.2 in
      let rest = enqueue_all execdir_placeholder paths first.pending in
      (
        ap (λ all. all ++ rest.1.paths) (paths_of-append first.run_batches rest.0)
            ∙ append_assoc (paths_of first.run_batches) (paths_of rest.0) rest.1.paths
            ∙ ap (λ later. paths_of first.run_batches ++ later) k.0
            ∙ sym (
                append_assoc (paths_of first.run_batches) first.pending.paths
                  (only_fitting execdir_placeholder first.pending paths))
            ∙ ap (λ early. early ++ only_fitting execdir_placeholder first.pending paths) h.0
            ∙ append_assoc batch.paths (only_fitting execdir_placeholder batch (path ∷ []))
                (only_fitting execdir_placeholder first.pending paths)
            ∙ ap (λ late. batch.paths ++ late)
                (ap (λ later. only_fitting execdir_placeholder batch (path ∷ []) ++ later)
                    (only_fitting-same first.pending batch paths h.3)
                  ∙ fitting_cons (fits execdir_placeholder batch path) path
                      (only_fitting execdir_placeholder batch paths)),
        AreWithin-append batch first.run_batches rest.0 h.1
            (AreWithin-same first.pending batch rest.0 h.3 k.1),
        k.2,
        (k.3.0 ∙ h.3.0, k.3.1 ∙ h.3.1, k.3.2 ∙ h.3.2),
      )

-- From an empty batch on, the batches that run and the pending one hold, in order, every path that fits
-- the limit by itself, and no other path; each batch that runs has a path and is within the limit, and so
-- is the pending one where it has a path.
pub enqueue_all-batches :
    (execdir_placeholder : Bytes → Bytes) (spec : BatchedExecAction) (max_bytes fixed_bytes : ℕ)
    (paths : List Bytes)
    → let start = new_batch spec max_bytes fixed_bytes in
      let (batches, pending) = enqueue_all execdir_placeholder paths start in
      (paths_of batches ++ pending.paths ≡ only_fitting execdir_placeholder start paths)
      × AreWithin execdir_placeholder start batches
      × (is_empty pending.paths ≡ false
          → fixed_bytes + total_cost execdir_placeholder spec pending.paths ≤ max_bytes)
unfolding EnqueuesAll SameLimit
enqueue_all-batches execdir_placeholder spec max_bytes fixed_bytes paths =
    let start = new_batch spec max_bytes fixed_bytes in
    let pending = (enqueue_all execdir_placeholder paths start).1 in
    let all : EnqueuesAll execdir_placeholder start paths
        (enqueue_all execdir_placeholder paths start) =
      enqueue_all-EnqueuesAll execdir_placeholder start paths (omega arith, λ e. absurd cc) in
    (
      all.0,
      all.1,
      λ filled. omega (
        arith,
        all.2.0,
        all.2.1 filled,
        ap (λ s. total_cost execdir_placeholder s pending.paths) all.3.0,
        all.3.1,
        all.3.2,
      ),
    )
