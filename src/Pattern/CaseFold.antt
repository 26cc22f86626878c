-- ===== src/Pattern/CaseFold.antt =====
-- In the insensitive mode the case of the candidate is not seen (src/pattern/owned.rs).
use rushfind.Prelude.{ℕ, Bool, [], ◌∷◌, ◌≡◌, refl, map, arith, Bytes}
use rushfind.Pattern.Ir.{
  GlobAtom, GlobProgram, GlobSlashMode, insensitive, any_byte, any_sequence, class, pathname,
}
use rushfind.Pattern.Owned.{to_ascii_lowercase, slash_allowed, any_position, matches_from}

to_ascii_lowercase_idem : (c : ℕ) → to_ascii_lowercase (to_ascii_lowercase c) ≡ to_ascii_lowercase c
unfolding to_ascii_lowercase
to_ascii_lowercase_idem c = ground arith

slash_allowed-to_ascii_lowercase :
    (slash_mode : GlobSlashMode) (c : ℕ)
    → slash_allowed slash_mode (to_ascii_lowercase c) ≡ slash_allowed slash_mode c
unfolding slash_allowed to_ascii_lowercase
slash_allowed-to_ascii_lowercase GlobSlashMode.literal c = refl
slash_allowed-to_ascii_lowercase pathname c = ground arith

any_position-map :
    (slash_mode : GlobSlashMode) (f g : Bytes → Bool)
    → ((s : Bytes) → f (map to_ascii_lowercase s) ≡ g s)
    → (candidate : Bytes)
    → any_position slash_mode f (map to_ascii_lowercase candidate)
      ≡ any_position slash_mode g candidate
unfolding any_position
any_position-map slash_mode f g h [] = h []
any_position-map slash_mode f g h (c ∷ candidate) = ground (
  arith,
  h (c ∷ candidate),
  slash_allowed-to_ascii_lowercase slash_mode c,
  any_position-map slash_mode f g h candidate,
)

-- In the insensitive mode a candidate matches exactly when its ASCII-lowercase form does, whatever
-- the program and the slash mode.
pub matches_from-map_lowercase :
    (slash_mode : GlobSlashMode) (program : GlobProgram) (candidate : Bytes)
    → matches_from insensitive slash_mode program (map to_ascii_lowercase candidate)
      ≡ matches_from insensitive slash_mode program candidate
unfolding matches_from
matches_from-map_lowercase slash_mode [] [] = refl
matches_from-map_lowercase slash_mode [] (c ∷ candidate) = refl
matches_from-map_lowercase slash_mode (any_sequence ∷ program) candidate =
    any_position-map slash_mode (matches_from insensitive slash_mode program)
      (matches_from insensitive slash_mode program) (matches_from-map_lowercase slash_mode program)
      candidate
matches_from-map_lowercase slash_mode (GlobAtom.literal e ∷ program) [] = refl
matches_from-map_lowercase slash_mode (any_byte ∷ program) [] = refl
matches_from-map_lowercase slash_mode (class k ∷ program) [] = refl
matches_from-map_lowercase slash_mode (GlobAtom.literal e ∷ program) (c ∷ candidate) =
    rw (to_ascii_lowercase_idem, matches_from-map_lowercase slash_mode program candidate)
matches_from-map_lowercase slash_mode (any_byte ∷ program) (c ∷ candidate) =
    rw (slash_allowed-to_ascii_lowercase, matches_from-map_lowercase slash_mode program candidate)
matches_from-map_lowercase slash_mode (class k ∷ program) (c ∷ candidate) = rw (
  slash_allowed-to_ascii_lowercase,
  to_ascii_lowercase_idem,
  matches_from-map_lowercase slash_mode program candidate,
)
