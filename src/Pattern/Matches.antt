-- ===== src/Pattern/Matches.antt =====
-- What a compiled glob accepts, with no search order in it, and the proof that the matcher of
-- src/pattern/owned.rs decides it.
use rushfind.Prelude.{
  ℕ, ◌≤◌, Bool, true, false, List, [], ◌∷◌, ◌++◌, ◌≡◌, refl, ap, ◌↔◌, ◌⊎◌, inl, inr, not,
  if◌then◌else◌, Bytes, any, arith, Bool-cases,
}
use mathlib.Core.Bool.{false≢true}
use rushfind.Pattern.Ir.{
  ClassItem, GlobClass, GlobAtom, GlobProgram, GlobCaseMode, GlobSlashMode, any_byte, any_sequence,
  class, pathname,
}
use rushfind.Pattern.Owned.{
  fold_byte, item_matches, class_matches, slash_allowed, any_position, matches_from,
}

abbrev pub Allowed : GlobSlashMode → ℕ → Type 0
Allowed GlobSlashMode.literal c = Unit
Allowed pathname c = ¬ (c ≡ b'/')

module _ (case_mode : GlobCaseMode) where
  -- The item covers the byte, up to case in the insensitive mode.
  abbrev pub Covers : ClassItem → ℕ → Type 0
  Covers (ClassItem.literal expected) c = fold_byte expected case_mode ≡ fold_byte c case_mode
  Covers (ClassItem.range start end) c =
      (fold_byte start case_mode ≤ fold_byte c case_mode)
      × (fold_byte c case_mode ≤ fold_byte end case_mode)

  abbrev pub SomeCovers : List ClassItem → ℕ → Type 0
  SomeCovers [] c = ⊥
  SomeCovers (item ∷ items) c = Covers item c ⊎ SomeCovers items c

  abbrev pub InClass : Bool → List ClassItem → ℕ → Type 0
  InClass false items c = SomeCovers items c
  InClass true items c = ¬ (SomeCovers items c)

  -- The bytes that one atom other than `*` takes.
  abbrev pub Takes : GlobSlashMode → GlobAtom → ℕ → Type 0
  Takes slash_mode (GlobAtom.literal expected) c =
      fold_byte expected case_mode ≡ fold_byte c case_mode
  Takes slash_mode any_byte c = Allowed slash_mode c
  Takes slash_mode any_sequence c = ⊥
  Takes slash_mode (class k) c = Allowed slash_mode c × InClass k.negated k.items c

abbrev pub AllAllowed : GlobSlashMode → Bytes → Type 0
AllAllowed slash_mode [] = Unit
AllAllowed slash_mode (c ∷ run) = Allowed slash_mode c × AllAllowed slash_mode run

pub data Matches (case_mode : GlobCaseMode) (slash_mode : GlobSlashMode)
    : GlobProgram → Bytes → Type 0 where
  empty : Matches case_mode slash_mode [] []
  one :
      {atom : GlobAtom} {c : ℕ} {program : GlobProgram} {candidate : Bytes}
      → Takes case_mode slash_mode atom c
      → Matches case_mode slash_mode program candidate
      → Matches case_mode slash_mode (atom ∷ program) (c ∷ candidate)
  run :
      {program : GlobProgram} {candidate : Bytes} (taken rest : Bytes)
      → AllAllowed slash_mode taken
      → candidate ≡ taken ++ rest
      → Matches case_mode slash_mode program rest
      → Matches case_mode slash_mode (any_sequence ∷ program) candidate

slash_allowed_iff :
    (slash_mode : GlobSlashMode) (c : ℕ)
    → (slash_allowed slash_mode c ≡ true) ↔ Allowed slash_mode c
unfolding slash_allowed
slash_allowed_iff GlobSlashMode.literal c = (λ h. tt, λ h. refl)
slash_allowed_iff pathname c = ground arith

module _ (case_mode : GlobCaseMode) where
  item_matches_iff :
      (item : ClassItem) (c : ℕ)
      → (item_matches case_mode (fold_byte c case_mode) item ≡ true) ↔ Covers case_mode item c
  unfolding item_matches
  item_matches_iff (ClassItem.literal expected) c = ground arith
  item_matches_iff (ClassItem.range start end) c = ground arith

  any_iff :
      (items : List ClassItem) (c : ℕ)
      → (any (item_matches case_mode (fold_byte c case_mode)) items ≡ true)
        ↔ SomeCovers case_mode items c
  any_iff [] c = (λ h. cc, λ h. absurd h)
  any_iff (item ∷ items) c = ground (arith, item_matches_iff item c, any_iff items c)

  InClass-iff :
      (negated b : Bool) (items : List ClassItem) (c : ℕ)
      → (b ≡ true) ↔ SomeCovers case_mode items c
      → ((if negated then not b else b) ≡ true) ↔ InClass case_mode negated items c
  InClass-iff false b items c e = e
  InClass-iff true true items c e = (λ h. cc, λ h. absurd (h (e.0 refl)))
  InClass-iff true false items c e = (λ h s. false≢true (e.1 s), λ h. refl)

  class_matches_iff :
      (k : GlobClass) (c : ℕ)
      → (class_matches k c case_mode ≡ true) ↔ InClass case_mode k.negated k.items c
  unfolding class_matches
  class_matches_iff k c = InClass-iff k.negated _ k.items c (any_iff k.items c)

-- The loop of `AnySequence` finds a run of allowed bytes after which the later atoms match.
abbrev Split : GlobSlashMode → (Bytes → Bool) → Bytes → Type 0
Split slash_mode rest candidate =
    (taken : Bytes) × (after : Bytes) × AllAllowed slash_mode taken
    × (candidate ≡ taken ++ after)
    × (rest after ≡ true)

module _ (slash_mode : GlobSlashMode) (rest : Bytes → Bool) where
  any_position→Split :
      (candidate : Bytes)
      → any_position slash_mode rest candidate ≡ true
      → Split slash_mode rest candidate
  unfolding any_position
  any_position→Split [] h = ([], [], tt, refl, h)
  any_position→Split (c ∷ candidate) h = elim (Bool-cases (rest (c ∷ candidate))) [
    | inl now ↦ ([], c ∷ candidate, tt, refl, now)
    | inr later ↦ elim (Bool-cases (slash_allowed slash_mode c)) [
      | inl allowed ↦
          let (taken, after, all_allowed, split, matched) =
            any_position→Split candidate (rw (later, allowed) at h) in
          (
            c ∷ taken,
            after,
            ((slash_allowed_iff slash_mode c).0 allowed, all_allowed),
            ap (◌∷◌ c) split,
            matched,
          )
      | inr refused ↦ absurd (ground arith)
    ]
  ]

  Split→any_position :
      (taken after : Bytes)
      → AllAllowed slash_mode taken
      → rest after ≡ true
      → any_position slash_mode rest (taken ++ after) ≡ true
  unfolding any_position
  Split→any_position [] [] h m = m
  Split→any_position [] (c ∷ after) h m = rw m
  Split→any_position (c ∷ taken) after h m =
      ground (arith, (slash_allowed_iff slash_mode c).1 h.0, Split→any_position taken after h.1 m)

module _ (case_mode : GlobCaseMode) (slash_mode : GlobSlashMode) where
  sound :
      (program : GlobProgram) (candidate : Bytes)
      → matches_from case_mode slash_mode program candidate ≡ true
      → Matches case_mode slash_mode program candidate
  unfolding matches_from
  sound [] [] h = empty
  sound [] (c ∷ candidate) h = cc
  sound (any_sequence ∷ program) candidate h =
      let (taken, after, allowed, split, matched) =
        any_position→Split slash_mode (matches_from case_mode slash_mode program) candidate h in
      run taken after allowed split (sound program after matched)
  sound (GlobAtom.literal e ∷ program) [] h = cc
  sound (any_byte ∷ program) [] h = cc
  sound (class k ∷ program) [] h = cc
  sound (GlobAtom.literal e ∷ program) (c ∷ candidate) h =
      one (ground arith) (sound program candidate (ground arith))
  sound (any_byte ∷ program) (c ∷ candidate) h =
      one ((slash_allowed_iff slash_mode c).0 (ground arith))
        (sound program candidate (ground arith))
  sound (class k ∷ program) (c ∷ candidate) h =
      one
        (
          (slash_allowed_iff slash_mode c).0 (ground arith),
          (class_matches_iff case_mode k c).0 (ground arith),
        )
        (sound program candidate (ground arith))

  complete :
      {program : GlobProgram} {candidate : Bytes}
      → Matches case_mode slash_mode program candidate
      → matches_from case_mode slash_mode program candidate ≡ true
  unfolding matches_from
  complete empty = refl
  complete (run {program} taken rest allowed split m) = rw split (
      Split→any_position slash_mode (matches_from case_mode slash_mode program) taken rest allowed
        (complete m))
  complete (one {atom} {c} {program} {candidate} t m) = step atom t (complete m)
    where
      step :
          (a : GlobAtom)
          → Takes case_mode slash_mode a c
          → matches_from case_mode slash_mode program candidate ≡ true
          → matches_from case_mode slash_mode (a ∷ program) (c ∷ candidate) ≡ true
      step (GlobAtom.literal e) t m = ground arith
      step any_byte t m = ground (arith, (slash_allowed_iff slash_mode c).1 t)
      step any_sequence t m = absurd t
      step (class k) t m =
          ground
            (arith, (slash_allowed_iff slash_mode c).1 t.0, (class_matches_iff case_mode k c).1 t.1)

  -- The matcher answers true exactly on the candidates that the program describes: each atom takes
  -- one byte that it covers, and `*` takes a run of bytes, without slashes in the pathname mode.
  pub matches_from_iff :
      (program : GlobProgram) (candidate : Bytes)
      → (matches_from case_mode slash_mode program candidate ≡ true)
        ↔ Matches case_mode slash_mode program candidate
  matches_from_iff program candidate = (sound program candidate, complete)
