-- ===== src/Pattern/Tests.antt =====
-- Runs of the globs, and their theorems at a pattern (src/pattern).
use rushfind.Prelude.{[], ◌∷◌, map, true, false, ◌≡◌, refl, ◌↔◌, Bytes, codes}
use rushfind.Pattern.Compiled.{case_mode_of, matches_pattern}
use rushfind.Pattern.Ir.{
  GlobAtom, any_sequence, GlobSlashMode, pathname, ClassItem, class, sensitive, insensitive,
  GlobProgram,
}
use rushfind.Pattern.Compiles.{compile_pattern-Ends, Ends}
use rushfind.Pattern.Parse.{compile_pattern}
use rushfind.Pattern.Collapsed.{compile_pattern-IsCollapsed, IsCollapsed}
use rushfind.Pattern.Owned.{to_ascii_lowercase, fold_byte, matches_from}
use rushfind.Pattern.Escaped.{matches_pattern-escape, escape}
use rushfind.Diagnostics.{ok}
use rushfind.Pattern.Matches.{matches_from_iff, Matches}
use rushfind.Pattern.CaseFold.{matches_from-map_lowercase}

abbrev flag : Bytes
flag = codes "-name"

-- [!a-c]*.rs
abbrev sources : Bytes
sources = codes "[!a-c]*.rs"

abbrev sources_program : GlobProgram
sources_program =
    class (record { negated = true; items = ClassItem.range b'a' b'c' ∷ [] })
    ∷ any_sequence
    ∷ GlobAtom.literal b'.'
    ∷ GlobAtom.literal b'r'
    ∷ GlobAtom.literal b's'
    ∷ []

compile_sources : compile_pattern flag sources ≡ ok sources_program
unfolding compile_pattern
compile_sources = refl

matches_main : matches_from sensitive GlobSlashMode.literal sources_program (codes "main.rs") ≡ true
unfolding matches_from
matches_main = refl

refuses_build :
    matches_from sensitive GlobSlashMode.literal sources_program (codes "build.rs") ≡ false
unfolding matches_from
refuses_build = refl

refuses_slash : matches_from sensitive pathname sources_program (codes "src/main.rs") ≡ false
unfolding matches_from
refuses_slash = refl

matches_from_iff_example :
    (matches_from insensitive pathname sources_program (codes "MAIN.RS") ≡ true)
    ↔ Matches insensitive pathname sources_program (codes "MAIN.RS")
matches_from_iff_example = matches_from_iff insensitive pathname sources_program (codes "MAIN.RS")

compile_pattern-Ends_example : Ends flag (λ _. Unit) (compile_pattern flag (codes "[[.a.]"))
compile_pattern-Ends_example = compile_pattern-Ends flag (codes "[[.a.]")

matches_pattern-escape_example :
    (matches_pattern (escape (codes "a*")) (codes "A*") true false ≡ ok true) ↔ (
      map (λ c. fold_byte c (case_mode_of true)) (codes "A*")
      ≡ map (λ c. fold_byte c (case_mode_of true)) (codes "a*"))
matches_pattern-escape_example = matches_pattern-escape (codes "a*") (codes "A*") true false

matches_from-map_lowercase_example :
    matches_from insensitive pathname sources_program (map to_ascii_lowercase (codes "MAIN.RS"))
    ≡ matches_from insensitive pathname sources_program (codes "MAIN.RS")
matches_from-map_lowercase_example =
    matches_from-map_lowercase pathname sources_program (codes "MAIN.RS")

compile_pattern-IsCollapsed_example : IsCollapsed sources_program
compile_pattern-IsCollapsed_example = compile_pattern-IsCollapsed flag sources compile_sources
