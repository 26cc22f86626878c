-- ===== src/Pattern/Compiled.antt =====
-- `CompiledGlob`, and the one-shot `matches_pattern` (src/pattern/mod.rs).
use rushfind.Prelude.{Bool, if◌then◌else◌, Bytes, codes}
use rushfind.Diagnostics.{Result, ok, ◌>>=◌}
use rushfind.Pattern.Ir.{GlobProgram, GlobCaseMode, GlobSlashMode, sensitive, insensitive, pathname}
use rushfind.Pattern.Owned.{matches_from}
use rushfind.Pattern.Parse.{compile_pattern}

pub record CompiledGlob : Type 0 where
  pub case_mode : GlobCaseMode
  pub slash_mode : GlobSlashMode
  pub program : GlobProgram

unfoldable pub compile : Bytes → Bytes → GlobCaseMode → GlobSlashMode → Result CompiledGlob
compile flag pattern case_mode slash_mode = do
  program ← compile_pattern flag pattern
  ok (record { case_mode = case_mode; slash_mode = slash_mode; program = program })

unfoldable pub is_match : CompiledGlob → Bytes → Result Bool
is_match glob candidate = ok (matches_from glob.case_mode glob.slash_mode glob.program candidate)

unfoldable pub case_mode_of : Bool → GlobCaseMode
case_mode_of case_insensitive = if case_insensitive then insensitive else sensitive

unfoldable pub matches_pattern : Bytes → Bytes → Bool → Bool → Result Bool
matches_pattern pattern candidate case_insensitive is_pathname = do
  glob ←
      compile
        (if is_pathname
          then if case_insensitive then codes "-ipath" else codes "-path"
          else if case_insensitive
          then codes "-iname"
          else codes "-name")
        pattern (case_mode_of case_insensitive)
        (if is_pathname then pathname else GlobSlashMode.literal)
  is_match glob candidate
