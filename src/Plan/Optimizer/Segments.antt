-- ===== src/Plan/Optimizer/Segments.antt =====
-- Chains that evaluate alike: moving predicates that cannot fail keeps the outcome of a chain.
use rushfind.Prelude.{
  elim-false_ext, Bool, true, false, ◌≡◌, refl, ap, sym, ◌∙◌, arith, leb, if_cases,
}
use rushfind.Diagnostics.{Result, ok, err}
use rushfind.Plan.Types.{RuntimePredicate, RuntimeAction}
use rushfind.Plan.Expr.{RuntimeExpr, RuntimeExprs, nil, cons, append_exprs}
use rushfind.Plan.Optimizer.Profile.{rank}
use rushfind.Plan.Optimizer.Pass.{expr_cost, insert_by_cost, sort_by_cost}
use rushfind.Eval.Outcome.{
  RuntimeStatus, Outcome, outcome, default_status, merge, is_stop_requested, merge_default,
}
use rushfind.Eval.Ran.{Ran, bind}
use rushfind.Eval.Direct.{ends_and, run, run_items}

pub append_exprs_assoc :
    (xs ys zs : RuntimeExprs)
    → append_exprs (append_exprs xs ys) zs ≡ append_exprs xs (append_exprs ys zs)
append_exprs_assoc nil ys zs = refl
append_exprs_assoc (cons x xs) ys zs = ap (cons x) (append_exprs_assoc xs ys zs)

pub append_exprs-nil : (xs : RuntimeExprs) → append_exprs xs nil ≡ xs
append_exprs-nil nil = refl
append_exprs-nil (cons x xs) = ap (cons x) (append_exprs-nil xs)

module _ {S : Type 0} (evaluate_predicate : RuntimePredicate → Result Bool)
    (dispatch : RuntimeAction → S → Ran S Outcome) where
  -- From a status that does not stop, the two chains run alike.
  abbrev pub Alike : RuntimeExprs → RuntimeExprs → Type 0
  Alike xs ys =
      (status : RuntimeStatus) (s : S)
      → is_stop_requested status ≡ false
      → run_items evaluate_predicate dispatch status xs s
        ≡ run_items evaluate_predicate dispatch status ys s

  -- The item has a truth value at this entry, and neither fails nor acts.
  abbrev pub IsPure : RuntimeExpr → Type 0
  IsPure item =
      (matched : Bool) × ((s : S)
        → run evaluate_predicate dispatch item s ≡ (ok (outcome matched), s))

  abbrev pub AllPure : RuntimeExprs → Type 0
  AllPure nil = Unit
  AllPure (cons item items) = IsPure item × AllPure items

  pub Alike-cons :
      (x y : RuntimeExpr) (xs ys : RuntimeExprs)
      → ((s : S) → run evaluate_predicate dispatch x s ≡ run evaluate_predicate dispatch y s)
      → Alike xs ys
      → Alike (cons x xs) (cons y ys)
  unfolding run
  Alike-cons x y xs ys h tails status s live =
      rw (h s) (after (run evaluate_predicate dispatch y s))
    where
      ended : Outcome → S → Ran S Outcome
      ended result s' =
          (ok (record { matched = result.matched; status = merge status result.status }), s')

      after :
          (m : Ran S Outcome)
          → bind m (λ result s'. elim (ends_and result (merge status result.status)) [
            | true ↦ ended result s'
            | false ↦ run_items evaluate_predicate dispatch (merge status result.status) xs s'
          ])
            ≡ bind m (λ result s'. elim (ends_and result (merge status result.status)) [
              | true ↦ ended result s'
              | false ↦ run_items evaluate_predicate dispatch (merge status result.status) ys s'
            ])
      after (err d, s') = refl
      after (ok result, s') =
          elim-false_ext (ends_and result (merge status result.status)) _ _ _
            λ going. tails (merge status result.status) s' (ground arith)

  pub Alike-append :
      (xs ys zs : RuntimeExprs) → Alike ys zs → Alike (append_exprs xs ys) (append_exprs xs zs)
  Alike-append nil ys zs h = h
  Alike-append (cons x xs) ys zs h = Alike-cons x x _ _ (λ s. refl) (Alike-append xs ys zs h)

  -- A chain that begins with a pure item goes on, or ends without a match.
  run_items-pure :
      (item : RuntimeExpr) (rest : RuntimeExprs) (matched : Bool)
      → ((s : S) → run evaluate_predicate dispatch item s ≡ (ok (outcome matched), s))
      → (status : RuntimeStatus) (s : S) → is_stop_requested status ≡ false
      → run_items evaluate_predicate dispatch status (cons item rest) s ≡ elim matched [
        | true ↦ run_items evaluate_predicate dispatch status rest s
        | false ↦ (ok (record { matched = false; status = status }), s)
      ]
  unfolding run
  run_items-pure item rest matched h status s live =
      rw (h s) (goes_on matched (merge status default_status) (merge_default status))
    where
      goes_on :
          (matched : Bool) (total : RuntimeStatus)
          → total ≡ status
          → elim (ends_and (outcome matched) total) [
            | true ↦ (ok (record { matched = matched; status = total }), s)
            | false ↦ run_items evaluate_predicate dispatch total rest s
          ]
            ≡ elim matched [
              | true ↦ run_items evaluate_predicate dispatch status rest s
              | false ↦ (ok (record { matched = false; status = status }), s)
            ]
      goes_on true total e =
          rw (ap is_stop_requested e ∙ live)
            (ap (λ t. run_items evaluate_predicate dispatch t rest s) e)
      goes_on false total e = rw e refl

  two_pure :
      (x y : RuntimeExpr) (rest : RuntimeExprs) (p : IsPure x) (q : IsPure y)
      → (status : RuntimeStatus) (s : S) → is_stop_requested status ≡ false
      → run_items evaluate_predicate dispatch status (cons x (cons y rest)) s ≡ elim p.0 [
        | true ↦ elim q.0 [
          | true ↦ run_items evaluate_predicate dispatch status rest s
          | false ↦ (ok (record { matched = false; status = status }), s)
        ]
        | false ↦ (ok (record { matched = false; status = status }), s)
      ]
  two_pure x y rest (a, ha) (b, hb) status s live =
      run_items-pure x (cons y rest) a ha status s live
      ∙ ap
          (λ m. elim a [ true ↦ m | false ↦ (ok (record { matched = false; status = status }), s) ])
          (run_items-pure y rest b hb status s live)

  Alike-swap :
      (x y : RuntimeExpr) (rest : RuntimeExprs)
      → IsPure x
      → IsPure y
      → Alike (cons x (cons y rest)) (cons y (cons x rest))
  Alike-swap x y rest p q status s live =
      two_pure x y rest p q status s live
      ∙ both p.0 q.0 _ _
      ∙ sym (two_pure y x rest q p status s live)
    where
      both :
          (a b : Bool) (x y : Ran S Outcome)
          → elim a [ true ↦ elim b [ true ↦ x | false ↦ y ] | false ↦ y ]
            ≡ elim b [ true ↦ elim a [ true ↦ x | false ↦ y ] | false ↦ y ]
      both true true x y = refl
      both true false x y = refl
      both false true x y = refl
      both false false x y = refl

  Alike-insert :
      (item : RuntimeExpr) (items rest : RuntimeExprs)
      → IsPure item
      → AllPure items
      → Alike (append_exprs (insert_by_cost item items) rest) (cons item (append_exprs items rest))
  unfolding insert_by_cost
  Alike-insert item nil rest p ps = λ status s live. refl
  Alike-insert item (cons next items) rest p ps =
      if_cases
        (λ sorted.
          Alike (append_exprs sorted rest) (cons item (cons next (append_exprs items rest))))
        (leb (rank (expr_cost item)) (rank (expr_cost next))) _ _ (λ status s live. refl)
        (λ status s live.
          Alike-cons next next _ _ (λ s'. refl) (Alike-insert item items rest p ps.1) status s live
          ∙ Alike-swap next item (append_exprs items rest) ps.0 p status s live)

  AllPure-insert :
      (item : RuntimeExpr) (items : RuntimeExprs)
      → IsPure item
      → AllPure items
      → AllPure (insert_by_cost item items)
  unfolding insert_by_cost
  AllPure-insert item nil p ps = (p, ps)
  AllPure-insert item (cons next items) p ps =
      if_cases AllPure (leb (rank (expr_cost item)) (rank (expr_cost next))) _ _ (p, ps)
        (ps.0, AllPure-insert item items p ps.1)

  AllPure-sort : (items : RuntimeExprs) → AllPure items → AllPure (sort_by_cost items)
  unfolding sort_by_cost
  AllPure-sort nil ps = ps
  AllPure-sort (cons item items) ps =
      AllPure-insert item (sort_by_cost items) ps.0 (AllPure-sort items ps.1)

  -- Sorting a segment of pure items keeps what the chain does.
  pub Alike-sort :
      (segment rest : RuntimeExprs)
      → AllPure segment
      → Alike (append_exprs (sort_by_cost segment) rest) (append_exprs segment rest)
  unfolding sort_by_cost
  Alike-sort nil rest ps status s live = refl
  Alike-sort (cons item items) rest ps status s live =
      Alike-insert item (sort_by_cost items) rest ps.0 (AllPure-sort items ps.1) status s live
      ∙ Alike-cons item item _ _ (λ s'. refl) (Alike-sort items rest ps.1) status s live
