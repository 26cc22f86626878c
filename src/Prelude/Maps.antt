-- ===== src/Prelude/Maps.antt =====
-- Maps with native numbers as keys (`BTreeMap<u64, V>`), of which only what a key leads to is seen, and
-- words of 64 bits.
use Prim.Native.Nat.{ℕ, suc, ◌<◌, ◌≤◌, ◌%◌, ◌^◌}
use rushfind.Prelude.Lists.{length}
use mathlib.Core.Logic.{inl, inr}
use rushfind.Prelude.Tests.{Bool-cases, if_cases, if_known, ◌==◌, if◌then◌else◌}
use mathlib.Core.Path.{◌≡◌, refl, ◌∙◌, sym}
use mathlib.Core.List.{List, [], ◌∷◌}
use mathlib.Core.Option.{Option, none, some}
use mathlib.Core.Logic.{◌≢◌}
use native.Mathlib.Omega.{arith}

abbrev pub NumberMap : Type 0 → Type 0
NumberMap V = List (ℕ × V)

module _ {V : Type 0} where
  unfoldable pub lookup : ℕ → NumberMap V → Option V
  lookup key [] = none
  lookup key ((k, v) ∷ rest) = let later = lookup key rest in if k == key then some v else later

  -- Every entry of the key goes.
  unfoldable pub remove : ℕ → NumberMap V → NumberMap V
  remove key [] = []
  remove key ((k, v) ∷ rest) =
      let later = remove key rest in if k == key then later else (k, v) ∷ later

  unfoldable pub insert : ℕ → V → NumberMap V → NumberMap V
  unfolding remove
  insert key v m = (key, v) ∷ remove key m

  pub lookup-remove_same : (key : ℕ) (m : NumberMap V) → lookup key (remove key m) ≡ none
  unfolding lookup remove
  lookup-remove_same key [] = refl
  lookup-remove_same key ((k, v) ∷ rest) =
      if_known (λ m. lookup key m ≡ none) (k == key) _ _ (λ _. lookup-remove_same key rest)
        (λ differs. rw differs (lookup-remove_same key rest))

  pub lookup-remove_other :
      (key other : ℕ) (m : NumberMap V) → other ≢ key → lookup key (remove other m) ≡ lookup key m
  unfolding lookup remove
  lookup-remove_other key other [] n = refl
  lookup-remove_other key other ((k, v) ∷ rest) n =
      if_known (λ m. lookup key m ≡ lookup key ((k, v) ∷ rest)) (k == other) _ _
        (λ e. lookup-remove_other key other rest n ∙ ground arith)
        (λ _. rw (lookup-remove_other key other rest n) refl)

  pub lookup-insert_same :
      (key : ℕ) (v : V) (m : NumberMap V) → lookup key (insert key v m) ≡ some v
  unfolding lookup insert
  lookup-insert_same key v m = ground arith

  pub lookup-insert_other :
      (key other : ℕ) (v : V) (m : NumberMap V)
      → other ≢ key
      → lookup key (insert other v m) ≡ lookup key m
  unfolding lookup insert
  lookup-insert_other key other v m n = ground (arith, lookup-remove_other key other m n)

  pub lookup-remove-some :
      (key k : ℕ) (m : NumberMap V) (a : V) → lookup k (remove key m) ≡ some a → lookup k m ≡ some a
  lookup-remove-some key k m a e = elim (Bool-cases (key == k)) [
    | inl same ↦ ground (arith, lookup-remove_same key m)
    | inr differs ↦ sym (lookup-remove_other k key m (ground arith)) ∙ e
  ]

  pub lookup-short : (k : ℕ) (m : NumberMap V) → length m ≤ 0 → lookup k m ≡ none
  unfolding lookup
  lookup-short k [] le = refl
  lookup-short k (entry ∷ m) le = ground arith

  pub length-remove : (key : ℕ) (m : NumberMap V) → length (remove key m) ≤ length m
  unfolding remove
  length-remove key [] = omega arith
  length-remove key ((k, a) ∷ m) =
      if_cases (λ kept. length kept ≤ suc (length m)) (k == key) (remove key m)
        ((k, a) ∷ remove key m) (omega (arith, length-remove key m))
        (omega (arith, length-remove key m))

  pub length-remove-some :
      (key : ℕ) (m : NumberMap V) (a : V) → lookup key m ≡ some a → length (remove key m) < length m
  unfolding remove lookup
  length-remove-some key [] a e = cc
  length-remove-some key ((k, v) ∷ m) a e =
      if_known (λ kept. length kept < suc (length m)) (k == key) (remove key m)
        ((k, v) ∷ remove key m) (λ same. omega (arith, length-remove key m))
        (λ differs. omega (arith, length-remove-some key m a (ground arith)))

-- `wrapping_add(1)` on 64 bits
abbrev pub next_word : ℕ → ℕ
next_word n = suc n % 2 ^ 64

pub next_word_small : (n : ℕ) → suc n < 2 ^ 64 → next_word n ≡ suc n
next_word_small n h = omega arith
