-- ===== src/Pattern/Collapsed.antt =====
-- Runs of `*` compile to one `AnySequence` (src/pattern/parse.rs).
use rushfind.Prelude.{
  ℕ, zero, suc, [], ◌∷◌, Option, none, some, Bytes, length, ◌==◌, ◌≡◌, refl, if_cases,
}
use mathlib.Core.Path.{subst}
use rushfind.Diagnostics.{Result, ok, err, ◌>>=◌, >>=-eq-ok, ok-injective}
use rushfind.Pattern.Ir.{GlobClass, GlobAtom, GlobProgram, any_byte, any_sequence, class}
use rushfind.Pattern.Parse.{
  escaped, push_atom, push_sequence, class_atom, next_atom, try_parse_class, compile_loop,
  compile_pattern, backslash,
}

-- No two `*` stand side by side.
abbrev pub IsCollapsed : GlobProgram → Type 0
IsCollapsed [] = Unit
IsCollapsed (any_sequence ∷ any_sequence ∷ program) = ⊥
IsCollapsed (atom ∷ program) = IsCollapsed program

abbrev TakesOne : GlobAtom → Type 0
TakesOne any_sequence = ⊥
TakesOne _ = Unit

-- On success the program is collapsed.
abbrev Yields : Result (GlobProgram × Bytes) → Type 0
Yields (ok (program, rest)) = IsCollapsed program
Yields (err d) = Unit

IsCollapsed-one : (atom : GlobAtom) → IsCollapsed (atom ∷ [])
IsCollapsed-one any_sequence = tt
IsCollapsed-one _ = tt

-- An atom that takes one byte may follow any atom, and any atom may follow it.
IsCollapsed-before :
    (a b : GlobAtom) (rest : GlobProgram)
    → TakesOne b
    → IsCollapsed (b ∷ rest)
    → IsCollapsed (a ∷ b ∷ rest)
IsCollapsed-before any_sequence any_sequence rest t h = absurd t
IsCollapsed-before any_sequence (GlobAtom.literal _) rest t h = h
IsCollapsed-before any_sequence any_byte rest t h = h
IsCollapsed-before any_sequence (class _) rest t h = h
IsCollapsed-before _ b rest t h = h

IsCollapsed-tail :
    (a : GlobAtom) (program : GlobProgram) → IsCollapsed (a ∷ program) → IsCollapsed program
IsCollapsed-tail any_sequence [] h = tt
IsCollapsed-tail any_sequence (any_sequence ∷ program) h = absurd h
IsCollapsed-tail any_sequence (GlobAtom.literal _ ∷ program) h = h
IsCollapsed-tail any_sequence (any_byte ∷ program) h = h
IsCollapsed-tail any_sequence (class _ ∷ program) h = h
IsCollapsed-tail _ program h = h

-- What stands first decides whether an atom may stand before a program.
IsCollapsed-cons :
    (a b : GlobAtom) (rest rest' : GlobProgram)
    → IsCollapsed (a ∷ b ∷ rest)
    → IsCollapsed (b ∷ rest')
    → IsCollapsed (a ∷ b ∷ rest')
IsCollapsed-cons any_sequence any_sequence rest rest' h k = h
IsCollapsed-cons any_sequence (GlobAtom.literal _) rest rest' h k = k
IsCollapsed-cons any_sequence any_byte rest rest' h k = k
IsCollapsed-cons any_sequence (class _) rest rest' h k = k
IsCollapsed-cons _ b rest rest' h k = k

push_atom-IsCollapsed :
    (atom : GlobAtom) (program : GlobProgram)
    → TakesOne atom
    → IsCollapsed program
    → IsCollapsed (push_atom atom program)
push_atom-IsCollapsed atom [] t h = IsCollapsed-one atom
push_atom-IsCollapsed atom (a ∷ []) t h = IsCollapsed-before a atom [] t (IsCollapsed-one atom)
push_atom-IsCollapsed atom (a ∷ b ∷ program) t h =
    IsCollapsed-cons a b program _ h
      (push_atom-IsCollapsed atom (b ∷ program) t (IsCollapsed-tail a (b ∷ program) h))

push_sequence-head :
    (b : GlobAtom) (program : GlobProgram)
    → (rest : GlobProgram) × (push_sequence (b ∷ program) ≡ b ∷ rest)
push_sequence-head any_sequence [] = ([], refl)
push_sequence-head (GlobAtom.literal c) [] = (_, refl)
push_sequence-head any_byte [] = (_, refl)
push_sequence-head (class c) [] = (_, refl)
push_sequence-head b (c ∷ program) = (push_sequence (c ∷ program), refl)

push_sequence-IsCollapsed :
    (program : GlobProgram) → IsCollapsed program → IsCollapsed (push_sequence program)
push_sequence-IsCollapsed [] h = tt
push_sequence-IsCollapsed (any_sequence ∷ []) h = tt
push_sequence-IsCollapsed (GlobAtom.literal _ ∷ []) h = tt
push_sequence-IsCollapsed (any_byte ∷ []) h = tt
push_sequence-IsCollapsed (class _ ∷ []) h = tt
push_sequence-IsCollapsed (a ∷ b ∷ program) h =
    let (rest, e) = push_sequence-head b program in
    rw e (
      IsCollapsed-cons a b program rest h
        (rw e at (push_sequence-IsCollapsed (b ∷ program) (IsCollapsed-tail a (b ∷ program) h))))

class_atom-Yields :
    (rest : Bytes) (program : GlobProgram) (parsed : Option (GlobClass × Bytes))
    → IsCollapsed program
    → IsCollapsed (class_atom rest program parsed).0
unfolding class_atom
class_atom-Yields rest program none h = push_atom-IsCollapsed (GlobAtom.literal b'[') program tt h
class_atom-Yields rest program (some (c, after)) h = push_atom-IsCollapsed (class c) program tt h

parsed-Yields :
    (rest : Bytes) (program : GlobProgram) (r : Result (Option (GlobClass × Bytes)))
    → IsCollapsed program
    → Yields (r >>= λ parsed. ok (class_atom rest program parsed))
parsed-Yields rest program (ok parsed) h = class_atom-Yields rest program parsed h
parsed-Yields rest program (err d) h = tt

next_atom-Yields :
    (flag : Bytes) (byte : ℕ) (rest : Bytes) (program : GlobProgram)
    → IsCollapsed program
    → Yields (next_atom flag byte rest program)
unfolding next_atom
next_atom-Yields flag byte rest program h =
    if_cases Yields (byte == backslash) _ _
      (push_atom-IsCollapsed (GlobAtom.literal (escaped rest).0) program tt h)
      (if_cases Yields (byte == b'*') _ _ (push_sequence-IsCollapsed program h) (
        if_cases Yields (byte == b'?') _ _ (push_atom-IsCollapsed any_byte program tt h) (
          if_cases Yields (byte == b'[') _ _
            (parsed-Yields rest program (try_parse_class flag rest) h)
            (push_atom-IsCollapsed (GlobAtom.literal byte) program tt h))))

compile_loop-IsCollapsed :
    (fuel : ℕ) (flag pattern : Bytes) (program program' : GlobProgram)
    → IsCollapsed program
    → compile_loop fuel flag pattern program ≡ ok program'
    → IsCollapsed program'
unfolding compile_loop
compile_loop-IsCollapsed fuel flag [] program program' h e = subst IsCollapsed (ok-injective e) h
compile_loop-IsCollapsed zero flag (c ∷ pattern) program program' h e = cc
compile_loop-IsCollapsed (suc fuel) flag (c ∷ pattern) program program' h e =
    let ((next, after), read, continued) = >>=-eq-ok (next_atom flag c pattern program) _ e in
    let collapsed : Yields (ok (next, after)) =
      rw read at (next_atom-Yields flag c pattern program h) in
    compile_loop-IsCollapsed fuel flag after next program' collapsed continued

-- A compiled program never has two `*` side by side, however the pattern is written.
pub compile_pattern-IsCollapsed :
    (flag pattern : Bytes) {program : GlobProgram}
    → compile_pattern flag pattern ≡ ok program
    → IsCollapsed program
unfolding compile_pattern
compile_pattern-IsCollapsed flag pattern {program} e =
    compile_loop-IsCollapsed (length pattern) flag pattern [] program tt e
