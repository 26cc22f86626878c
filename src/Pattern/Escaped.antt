-- ===== src/Pattern/Escaped.antt =====
-- A pattern with a backslash before each byte stands for its own text (src/pattern/parse.rs with
-- src/pattern/owned.rs).
use rushfind.Prelude.{
  ℕ, zero, suc, ◌≤◌, Bool, true, [], ◌∷◌, ◌++◌, append-nil, append_assoc, map, ◌≡◌, refl, ◌↔◌,
  Bytes, length, arith, if◌then◌else◌,
}
use rushfind.Diagnostics.{ok}
use rushfind.Pattern.Ir.{GlobAtom, GlobProgram, GlobCaseMode, GlobSlashMode, pathname}
use rushfind.Pattern.Owned.{fold_byte, eq_byte, matches_from}
use rushfind.Pattern.Parse.{backslash, escaped, next_atom, push_atom, compile_loop, compile_pattern}
use rushfind.Pattern.Compiled.{compile, is_match, matches_pattern, case_mode_of}

abbrev pub escape : Bytes → Bytes
escape [] = []
escape (c ∷ text) = backslash ∷ c ∷ escape text

abbrev as_literals : Bytes → GlobProgram
as_literals = map GlobAtom.literal

compile_loop-escape :
    (flag text : Bytes) (fuel : ℕ) (program : GlobProgram)
    → length (escape text) ≤ fuel
    → compile_loop fuel flag (escape text) program ≡ ok (program ++ as_literals text)
unfolding compile_loop next_atom escaped
compile_loop-escape flag [] fuel program h = rw append-nil
compile_loop-escape flag (c ∷ text) zero program h = absurd (omega arith)
compile_loop-escape flag (c ∷ text) (suc fuel) program h =
    rw (compile_loop-escape flag text fuel (push_atom (GlobAtom.literal c) program) (omega arith))
      (rw append_assoc)

compile_pattern-escape :
    (flag text : Bytes) → compile_pattern flag (escape text) ≡ ok (as_literals text)
unfolding compile_pattern
compile_pattern-escape flag text =
    compile_loop-escape flag text (length (escape text)) [] (omega arith)

abbrev folded : GlobCaseMode → Bytes → Bytes
folded case_mode = map (λ c. fold_byte c case_mode)

matches_from-literals :
    (case_mode : GlobCaseMode) (slash_mode : GlobSlashMode) (text candidate : Bytes)
    → (matches_from case_mode slash_mode (as_literals text) candidate ≡ true)
      ↔ (folded case_mode candidate ≡ folded case_mode text)
unfolding matches_from eq_byte
matches_from-literals case_mode slash_mode [] [] = (λ h. refl, λ h. refl)
matches_from-literals case_mode slash_mode [] (c ∷ candidate) = (λ h. cc, λ h. cc)
matches_from-literals case_mode slash_mode (e ∷ text) [] = (λ h. cc, λ h. cc)
matches_from-literals case_mode slash_mode (e ∷ text) (c ∷ candidate) =
    ground (arith, matches_from-literals case_mode slash_mode text candidate)

-- A text with each byte escaped, used as a pattern, matches exactly the candidates that equal the
-- text, up to ASCII case when matching is case insensitive, for names and for paths.
pub matches_pattern-escape :
    (text candidate : Bytes) (case_insensitive is_pathname : Bool)
    → (matches_pattern (escape text) candidate case_insensitive is_pathname ≡ ok true) ↔ (
        map (λ c. fold_byte c (case_mode_of case_insensitive)) candidate
        ≡ map (λ c. fold_byte c (case_mode_of case_insensitive)) text)
unfolding matches_pattern compile is_match
matches_pattern-escape text candidate case_insensitive is_pathname = rw compile_pattern-escape (
    ground (
      arith,
      matches_from-literals (case_mode_of case_insensitive)
          (if is_pathname then pathname else GlobSlashMode.literal) text candidate,
    ))
