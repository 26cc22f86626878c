-- ===== src/Pattern/Owned.antt =====
-- Matching a candidate against a program (src/pattern/owned.rs).
-- An index into the program or the candidate is the part of it from that index on.
use rushfind.Prelude.{
  ℕ, ◌+◌, Bool, true, false, not, ◌&&◌, [], ◌∷◌, ◌==◌, leb, if◌then◌else◌, Bytes, any, is_empty,
}
use rushfind.Pattern.Ir.{
  ClassItem, GlobClass, GlobAtom, GlobProgram, GlobCaseMode, GlobSlashMode, sensitive, insensitive,
  any_byte, any_sequence, class, pathname,
}

-- `u8::to_ascii_lowercase`
unfoldable pub to_ascii_lowercase : ℕ → ℕ
to_ascii_lowercase byte = if leb b'A' byte && leb byte b'Z' then byte + 32 else byte

unfoldable pub fold_byte : ℕ → GlobCaseMode → ℕ
unfolding to_ascii_lowercase
fold_byte byte sensitive = byte
fold_byte byte insensitive = to_ascii_lowercase byte

unfoldable pub eq_byte : ℕ → ℕ → GlobCaseMode → Bool
unfolding fold_byte
eq_byte expected actual case_mode = fold_byte expected case_mode == fold_byte actual case_mode

unfoldable pub item_matches : GlobCaseMode → ℕ → ClassItem → Bool
unfolding fold_byte
item_matches case_mode folded_actual (ClassItem.literal expected) =
    fold_byte expected case_mode == folded_actual
item_matches case_mode folded_actual (ClassItem.range start end) =
    leb (fold_byte start case_mode) folded_actual && leb folded_actual (fold_byte end case_mode)

unfoldable pub class_matches : GlobClass → ℕ → GlobCaseMode → Bool
unfolding item_matches
class_matches c actual case_mode =
    let matched = any (item_matches case_mode (fold_byte actual case_mode)) c.items in
    if c.negated then not matched else matched

-- `actual != b'/' || slash_mode == Literal`
unfoldable pub slash_allowed : GlobSlashMode → ℕ → Bool
slash_allowed GlobSlashMode.literal actual = true
slash_allowed pathname actual = not (actual == b'/')

-- The `while let` of `AnySequence`: `rest` tells whether the later atoms match from a position.
unfoldable pub any_position : GlobSlashMode → (Bytes → Bool) → Bytes → Bool
unfolding slash_allowed
any_position slash_mode rest [] = rest []
any_position slash_mode rest (actual ∷ candidate) =
    let further = any_position slash_mode rest candidate in
    if rest (actual ∷ candidate)
    then true
    else if not (slash_allowed slash_mode actual)
    then false
    else further

unfoldable pub matches_from : GlobCaseMode → GlobSlashMode → GlobProgram → Bytes → Bool
unfolding any_position eq_byte class_matches
matches_from case_mode slash_mode [] candidate = is_empty candidate
matches_from case_mode slash_mode (any_sequence ∷ program) candidate =
    any_position slash_mode (matches_from case_mode slash_mode program) candidate
matches_from case_mode slash_mode (_ ∷ program) [] = false
matches_from case_mode slash_mode (GlobAtom.literal expected ∷ program) (actual ∷ candidate) =
    eq_byte expected actual case_mode && matches_from case_mode slash_mode program candidate
matches_from case_mode slash_mode (any_byte ∷ program) (actual ∷ candidate) =
    slash_allowed slash_mode actual && matches_from case_mode slash_mode program candidate
matches_from case_mode slash_mode (class c ∷ program) (actual ∷ candidate) =
    slash_allowed slash_mode actual
    && class_matches c actual case_mode
    && matches_from case_mode slash_mode program candidate
