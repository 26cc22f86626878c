-- ===== src/Walk/Loops.antt =====
-- The walk ends: a directory is refused below itself, and a depth bound holds (src/walker.rs).
use rushfind.Walk.Types.{PendingPath, WalkBackend, TraversalOptions, DiscoveredChild}
use rushfind.Walk.Descend.{
  root_device_or, pending_root, contains, descend_into, descend_or_none, should_descend,
  should_descend_directory, DescendDecision,
}
use rushfind.Walk.Events.{
  questions, Each, EndsWithin, look, shown, decided, listed, roots, pending_children,
}
use rushfind.Entry.Types.{device_number, FileIdentity}
use rushfind.Entry.Context.{EntryContext}
use rushfind.Control.Verdict.{TraversalControl}
use rushfind.Eval.Predicate.{identity_eq}
use rushfind.Diagnostics.{OnOk-tt, OnOk-self, Diagnostic, ok, err, Result, OnOk, >>=-OnOk}
use rushfind.Prelude.{
  ◌==◌, ◌&&◌, not, none, some, zero, Option, ◌+◌, Bytes, Bool-cases, inl, inr, sym, subst, Bool,
  suc, refl, ◌||◌, ◌≤◌, ◌<◌, if◌then◌else◌, length, false, ◌∷◌, arith, ℕ, ◌++◌, [], true, ◌≡◌, List,
  if_cases, if_known,
}

-- How many of the identities no ancestor has.
abbrev pub fresh : List FileIdentity → List FileIdentity → ℕ
fresh [] ancestry = 0
fresh (identity ∷ rest) ancestry =
    if contains ancestry identity then fresh rest ancestry else suc (fresh rest ancestry)

contains-append :
    (ancestry : List FileIdentity) (other identity : FileIdentity)
    → contains (ancestry ++ other ∷ []) identity
      ≡ (contains ancestry identity || identity_eq other identity)
contains-append [] other identity = grind arith
contains-append (first ∷ ancestry) other identity =
    grind (arith, contains-append ancestry other identity)

identity_eq-eq : (a b : FileIdentity) → identity_eq a b ≡ true → a ≡ b
identity_eq-eq (FileIdentity.unix a b) (FileIdentity.unix c d) e = ground arith
identity_eq-eq (FileIdentity.windows a b) (FileIdentity.windows c d) e = ground arith
identity_eq-eq (FileIdentity.unix a b) (FileIdentity.windows c d) e = cc
identity_eq-eq (FileIdentity.windows a b) (FileIdentity.unix c d) e = cc

identity_eq_refl : (a : FileIdentity) → identity_eq a a ≡ true
identity_eq_refl (FileIdentity.unix a b) = ground arith
identity_eq_refl (FileIdentity.windows a b) = ground arith

fresh-append_le :
    (all_known ancestry : List FileIdentity) (other : FileIdentity)
    → fresh all_known (ancestry ++ other ∷ []) ≤ fresh all_known ancestry
fresh-append_le [] ancestry other = omega arith
fresh-append_le (identity ∷ rest) ancestry other =
    grind (arith, fresh-append_le rest ancestry other, contains-append ancestry other identity)

fresh-append :
    (all_known ancestry : List FileIdentity) (other : FileIdentity)
    → contains all_known other ≡ true
    → contains ancestry other ≡ false
    → fresh all_known (ancestry ++ other ∷ []) < fresh all_known ancestry
fresh-append [] ancestry other k n = cc
fresh-append (identity ∷ rest) ancestry other k n = elim (Bool-cases (identity_eq identity other)) [
  | inl e ↦
      let same : identity ≡ other = identity_eq-eq identity other e in
      let unseen : contains ancestry identity ≡ false =
        subst (λ i. contains ancestry i ≡ false) (sym same) n in
      let seen : identity_eq other identity ≡ true =
        subst (λ i. identity_eq other i ≡ true) (sym same) (identity_eq_refl other) in
      grind (
        arith,
        unseen,
        seen,
        contains-append ancestry other identity,
        fresh-append_le rest ancestry other,
      )
  | inr e ↦
      grind (arith, e, k, contains-append ancestry other identity, fresh-append rest ancestry other)
]

fresh-none : (all_known : List FileIdentity) → fresh all_known [] ≡ length all_known
fresh-none [] = refl
fresh-none (identity ∷ rest) = grind (arith, fresh-none rest)

abbrev pub OnSome : {A : Type 0} → (A → Type 0) → Option A → Type 0
OnSome P none = Unit
OnSome P (some a) = P a

-- The entry is no directory, or one whose identity is in the list.
abbrev pub HasIdentityIn : List FileIdentity → WalkBackend → EntryContext → Type 0
HasIdentityIn all_known backend e =
    OnOk (λ identity. OnSome (λ i. contains all_known i ≡ true) identity)
      (backend.active_directory_identity e)

module _ (backend : WalkBackend) (control : EntryContext → Result TraversalControl)
    (options : TraversalOptions) (all_known : List FileIdentity)
    (known : (pending : PendingPath) (e : EntryContext)
      → backend.load_entry pending ≡ ok e
      → HasIdentityIn all_known backend e) where
  -- A directory is entered with one more ancestor, above the depth bound.
  abbrev Grows : PendingPath → List FileIdentity → Type 0
  Grows pending ancestry =
      (fresh all_known ancestry < fresh all_known pending.ancestry)
      × (should_descend pending.depth options.max_depth ≡ true)

  abbrev Decides : PendingPath → DescendDecision → Type 0
  Decides pending none = Unit
  Decides pending (some (ancestry, root_device)) = Grows pending ancestry

  abbrev Child : PendingPath → PendingPath → Type 0
  Child pending child =
      (child.depth ≡ pending.depth + 1)
      × (fresh all_known child.ancestry < fresh all_known pending.ancestry)
      × (should_descend pending.depth options.max_depth ≡ true)

  descend_into-Grows :
      (pending : PendingPath) (identity : FileIdentity)
      → contains all_known identity ≡ true
      → should_descend pending.depth options.max_depth ≡ true
      → OnOk (Decides pending) (descend_into pending options identity)
  unfolding descend_into
  descend_into-Grows pending identity k d =
      if_known (OnOk (Decides pending)) (contains pending.ancestry identity) _ _ (λ _. tt)
        λ unseen.
          if_cases {A = Result DescendDecision} (OnOk (Decides pending))
            (options.same_file_system
              && not (device_number identity == root_device_or pending.root_device identity))
            (ok none)
            (ok (
              some (
                pending.ancestry ++ identity ∷ [],
                some (root_device_or pending.root_device identity),
              )))
            tt (fresh-append all_known pending.ancestry identity k unseen, d)

  should_descend_directory-Grows :
      (pending : PendingPath) (e : EntryContext) (verdict : TraversalControl)
      → HasIdentityIn all_known backend e
      → OnOk (Decides pending) (should_descend_directory backend pending e options verdict)
  unfolding should_descend_directory
  should_descend_directory-Grows pending e verdict has =
      if_known (OnOk (Decides pending))
        (verdict.prune || not (should_descend pending.depth options.max_depth)) (ok none) _
        (λ _. tt)
        λ enters.
          >>=-OnOk (OnSome (λ i. contains all_known i ≡ true)) (Decides pending)
            (backend.active_directory_identity e) (descend_or_none pending options) has
            λ identity k.
              elim identity
                  as (λ i.
                    OnSome (λ i'. contains all_known i' ≡ true) i
                    → OnOk (Decides pending) (descend_or_none pending options i)) [
                      | none ↦ λ _. tt
                      | some i ↦ λ k'. descend_into-Grows pending i k' (grind (arith, enters))
                    ]
                k

  pending_children-Child :
      (pending : PendingPath) (ancestry : List FileIdentity) (root_device : Option ℕ)
      (children : List DiscoveredChild)
      → Grows pending ancestry
      → Each (Child pending) (pending_children pending ancestry root_device children)
  pending_children-Child pending ancestry root_device [] g = tt
  pending_children-Child pending ancestry root_device (child ∷ children) g =
      ((refl, g.0, g.1), pending_children-Child pending ancestry root_device children g)

  listed-Child :
      (pending : PendingPath) (e : EntryContext) (is_directory : Bool)
      (ancestry : List FileIdentity) (root_device : Option ℕ)
      (children : Result (List DiscoveredChild × List Diagnostic))
      → Grows pending ancestry
      → Each
          (Child pending)
          (listed backend control options pending e is_directory ancestry root_device
            children).children
  unfolding listed
  listed-Child pending e is_directory ancestry root_device (err error) g = tt
  listed-Child pending e is_directory ancestry root_device (ok (children, errors)) g =
      pending_children-Child pending ancestry root_device children g

  decided-Child :
      (pending : PendingPath) (e : EntryContext) (is_directory : Bool)
      (decision : Result DescendDecision)
      → OnOk (Decides pending) decision
      → Each
          (Child pending)
          (decided backend control options pending e is_directory decision).children
  unfolding decided
  decided-Child pending e is_directory (err error) g = tt
  decided-Child pending e is_directory (ok none) g = tt
  decided-Child pending e is_directory (ok (some (ancestry, root_device))) g =
      listed-Child pending e is_directory ancestry root_device _ g

  shown-Child :
      (pending : PendingPath)
      (answers : Result (EntryContext × TraversalControl × Option FileIdentity))
      → OnOk (λ answer. HasIdentityIn all_known backend answer.0) answers
      → Each (Child pending) (shown backend control options answers pending).children
  unfolding shown
  shown-Child pending (err error) has = tt
  shown-Child pending (ok (e, verdict, identity)) has =
      decided-Child pending e _ _ (should_descend_directory-Grows pending e verdict has)

  -- The entry that the walk asks about is the one it loaded.
  questions-HasIdentityIn :
      (pending : PendingPath)
      → OnOk
          (λ answer. HasIdentityIn all_known backend answer.0)
          (questions backend control options pending)
  questions-HasIdentityIn pending =
      >>=-OnOk (λ e. backend.load_entry pending ≡ ok e)
        (λ answer. HasIdentityIn all_known backend answer.0) (backend.load_entry pending) _
        (OnOk-self (backend.load_entry pending))
        λ e loaded.
          >>=-OnOk (λ _. Unit {0}) (λ answer. HasIdentityIn all_known backend answer.0) (control e)
            _ (OnOk-tt (control e))
            λ verdict _.
              >>=-OnOk (λ _. Unit {0}) (λ answer. HasIdentityIn all_known backend answer.0)
                (backend.active_directory_identity e) _
                (OnOk-tt (backend.active_directory_identity e)) λ identity _. known pending e loaded

  Each-map :
      (P Q : PendingPath → Type 0) (paths : List PendingPath)
      → ((pending : PendingPath) → P pending → Q pending)
      → Each P paths
      → Each Q paths
  Each-map P Q [] h e = tt
  Each-map P Q (pending ∷ paths) h e = (h pending (e.0), Each-map P Q paths h (e.1))

  EndsWithin-fresh :
      (height : ℕ) (pending : PendingPath)
      → fresh all_known pending.ancestry < height
      → EndsWithin backend control options height pending
  unfolding EndsWithin look
  EndsWithin-fresh zero pending l = absurd (omega (arith, l))
  EndsWithin-fresh (suc height) pending l =
      Each-map (Child pending) (EndsWithin backend control options height) _
        (λ child c. EndsWithin-fresh height child (omega (arith, l, c.1)))
        (shown-Child pending (questions backend control options pending)
          (questions-HasIdentityIn pending))

  -- However deep the directories are nested, or linked to each other where links are followed: if each
  -- entry that the walk can load is no directory, or one with an identity of a list, then no path is more
  -- directories deep than the list is long, since none is entered below itself.
  pub roots-EndsWithin :
      (paths : List Bytes)
      → Each (EndsWithin backend control options (suc (length all_known))) (roots paths)
  roots-EndsWithin [] = tt
  roots-EndsWithin (path ∷ paths) = (
    EndsWithin-fresh (suc (length all_known)) (pending_root path)
        (omega (arith, fresh-none all_known)),
    roots-EndsWithin paths,
  )
