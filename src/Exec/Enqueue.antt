-- ===== src/Exec/Enqueue.antt =====
-- What one more path makes of a batch (src/exec/batch.rs, src/exec/ordered.rs).
use rushfind.Prelude.{
  ap, append_assoc, sym, ◌<◌, ◌∙◌, append-nil, arith, if_known, refl, leb, ◌≡◌, ℕ, Bool, true,
  false, not, ◌&&◌, List, [], ◌∷◌, ◌++◌, Bytes, is_empty, if◌then◌else◌, ◌+◌, ◌≤◌,
}
use rushfind.Exec.Batch.{
  add_path, after_push, batched_path_cost, take_ready, Enqueued, would_overflow, PendingBatch,
  ReadyBatch, enqueue, push_path,
}
use rushfind.Plan.Types.{BatchedExecAction}

abbrev pub paths_of : List ReadyBatch → List Bytes
paths_of [] = []
paths_of (ready ∷ batches) = ready.paths ++ paths_of batches

module _ (execdir_placeholder : Bytes → Bytes) where
  abbrev pub total_cost : BatchedExecAction → List Bytes → ℕ
  total_cost spec [] = 0
  total_cost spec (path ∷ paths) =
      batched_path_cost execdir_placeholder spec path + total_cost spec paths

  total_cost-snoc :
      (spec : BatchedExecAction) (paths : List Bytes) (path : Bytes)
      → total_cost spec (paths ++ (path ∷ []))
        ≡ total_cost spec paths + batched_path_cost execdir_placeholder spec path
  total_cost-snoc spec [] path = omega arith
  total_cost-snoc spec (p ∷ paths) path = omega (arith, total_cost-snoc spec paths path)

  -- The command with this path alone is within the limit.
  abbrev pub fits : PendingBatch → Bytes → Bool
  fits batch path =
      leb (batch.fixed_bytes + batched_path_cost execdir_placeholder batch.spec path)
        batch.max_bytes

  abbrev pub only_fitting : PendingBatch → List Bytes → List Bytes
  only_fitting batch [] = []
  only_fitting batch (path ∷ paths) =
      let rest = only_fitting batch paths in if fits batch path then path ∷ rest else rest

  -- Each of the batches runs the command on at least one path, within the limit.
  abbrev pub AreWithin : PendingBatch → List ReadyBatch → Type 0
  AreWithin batch [] = Unit
  AreWithin batch (ready ∷ batches) =
      (is_empty ready.paths ≡ false)
      × (ready.spec ≡ batch.spec)
      × (batch.fixed_bytes + total_cost ready.spec ready.paths ≤ batch.max_bytes)
      × AreWithin batch batches

  -- The bytes are counted, and within the limit where there is a path.
  abbrev pub IsCounted : PendingBatch → Type 0
  IsCounted batch =
      (batch.used_bytes ≡ batch.fixed_bytes + total_cost batch.spec batch.paths)
      × (is_empty batch.paths ≡ false → batch.used_bytes ≤ batch.max_bytes)

  -- What `enqueue` makes of a batch.
  unfoldable pub Enqueues : PendingBatch → Bytes → Enqueued → Type 0
  Enqueues batch path result =
      (paths_of result.run_batches ++ result.pending.paths
        ≡ batch.paths ++ only_fitting batch (path ∷ []))
      × AreWithin batch result.run_batches
      × IsCounted result.pending
      × ((result.pending.spec ≡ batch.spec)
          × (result.pending.fixed_bytes ≡ batch.fixed_bytes)
          × (result.pending.max_bytes ≡ batch.max_bytes))

  is_empty-snoc : (paths : List Bytes) (path : Bytes) → is_empty (paths ++ (path ∷ [])) ≡ false
  is_empty-snoc [] path = refl
  is_empty-snoc (p ∷ paths) path = refl

  -- The batch in progress, where batches of the first paths may have run.
  abbrev progress : PendingBatch → List Bytes → ℕ → PendingBatch
  progress before paths used = record before { paths = paths; used_bytes = used }

  accepts :
      (before : PendingBatch) (path : Bytes) (relieved : List ReadyBatch) (paths : List Bytes)
      (used : ℕ)
      → used ≡ before.fixed_bytes + total_cost before.spec paths
      → used + batched_path_cost execdir_placeholder before.spec path ≤ before.max_bytes
      → paths_of relieved ++ paths ≡ before.paths
      → AreWithin before relieved
      → Enqueues before path (record {
        run_batches = relieved;
        refused = false;
        pending = add_path execdir_placeholder path (progress before paths used);
      })
  unfolding Enqueues
  accepts before path relieved paths used counted room same within = (
    sym (append_assoc (paths_of relieved) paths (path ∷ []))
        ∙ ap (λ first. first ++ (path ∷ [])) same
        ∙ ap (λ last. before.paths ++ last) (fitting (fits before path) (ground arith)),
    within,
    (omega (arith, total_cost-snoc before.spec paths path), λ _. room),
    (refl, refl, refl),
  )
    where
      fitting : (b : Bool) → b ≡ true → (path ∷ []) ≡ (if b then path ∷ [] else [])
      fitting b e = rw e refl

  is_empty-nil : (paths : List Bytes) → is_empty paths ≡ true → paths ≡ []
  is_empty-nil [] e = refl
  is_empty-nil (p ∷ paths) e = cc

  refuses :
      (before : PendingBatch) (path : Bytes) (relieved : List ReadyBatch) (paths : List Bytes)
      (used : ℕ)
      → is_empty paths ≡ true
      → used ≡ before.fixed_bytes + total_cost before.spec paths
      → before.max_bytes
        < before.fixed_bytes + batched_path_cost execdir_placeholder before.spec path
      → paths_of relieved ≡ before.paths
      → AreWithin before relieved
      → Enqueues before path
          (record { run_batches = relieved; refused = true; pending = progress before paths used })
  unfolding Enqueues
  refuses before path relieved paths used none_left counted excess same within = (
    ap (λ last. paths_of relieved ++ last) (is_empty-nil paths none_left)
        ∙ append-nil (paths_of relieved)
        ∙ same
        ∙ sym (append-nil before.paths)
        ∙ ap (λ last. before.paths ++ last) (misfit (fits before path) (ground arith)),
    within,
    (counted, λ e. absurd cc),
    (refl, refl, refl),
  )
    where
      misfit : (b : Bool) → b ≡ false → [] ≡ (if b then path ∷ [] else [])
      misfit b e = rw e refl

  pub enqueue-Enqueues :
      (batch : PendingBatch) (path : Bytes)
      → IsCounted batch
      → Enqueues batch path (enqueue execdir_placeholder path batch)
  unfolding enqueue take_ready push_path would_overflow
  enqueue-Enqueues batch path (used, limit) =
      if_known (Enqueues batch path)
        (not (is_empty batch.paths) && would_overflow execdir_placeholder batch path) _ _
        (λ full.
          let ready : ReadyBatch = record { spec = batch.spec; paths = batch.paths } in
          let filled : is_empty batch.paths ≡ false = ground arith in
          let within : AreWithin batch (ready ∷ []) =
            (filled, refl, omega (arith, limit filled), tt) in
          if_known (λ pushed. Enqueues batch path (after_push (ready ∷ []) pushed))
            (would_overflow execdir_placeholder (progress batch [] batch.fixed_bytes) path) _ _
            (λ excess.
              refuses batch path (ready ∷ []) [] batch.fixed_bytes refl (omega arith) (ground arith)
                (append-nil batch.paths) within)
            (λ room.
              accepts batch path (ready ∷ []) [] batch.fixed_bytes (omega arith) (ground arith)
                (append-nil (batch.paths ++ []) ∙ append-nil batch.paths) within))
        (λ roomy.
          if_known (λ pushed. Enqueues batch path (after_push [] pushed))
            (is_empty batch.paths && would_overflow execdir_placeholder batch path) _ _
            (λ excess.
              let paths_empty : batch.paths ≡ [] = is_empty-nil batch.paths (ground arith) in
              let no_cost : total_cost batch.spec batch.paths ≡ 0 =
                ap (total_cost batch.spec) paths_empty in
              refuses batch path [] batch.paths batch.used_bytes (ground arith) used (ground arith)
                (sym paths_empty) tt)
            (λ fine.
              if_known (λ pushed. Enqueues batch path (after_push [] pushed))
                (not (is_empty batch.paths) && would_overflow execdir_placeholder batch path) _ _
                (λ full. absurd cc)
                (λ _.
                  accepts batch path [] batch.paths batch.used_bytes used (ground arith) refl tt)))
