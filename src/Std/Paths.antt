-- ===== src/Std/Paths.antt =====
-- `Path::components` and the equality of paths, on Unix, as the standard library documents them: slashes
-- that follow one another count as one, as does a slash at the end, and a `.` is left out but in front.
use rushfind.Prelude.{
  bytes_eq, if◌then◌else◌, ◌==◌, ◌&&◌, not, is_empty, Bool, true, false, ℕ, Bytes, List, [], ◌∷◌,
  ◌++◌, codes, ◌≡◌, refl, ap, arith,
}

abbrev push_front : ℕ → List Bytes → List Bytes
push_front c [] = (c ∷ []) ∷ []
push_front c (part ∷ parts) = (c ∷ part) ∷ parts

-- What stands between the slashes.
abbrev split_slashes : Bytes → List Bytes
split_slashes [] = [] ∷ []
split_slashes (c ∷ rest) =
    let parts = split_slashes rest in if c == b'/' then [] ∷ parts else push_front c parts

abbrev is_component : Bytes → Bool
is_component part = not (is_empty part) && not (bytes_eq part (codes "."))

abbrev kept_parts : List Bytes → List Bytes
kept_parts [] = []
kept_parts (part ∷ parts) =
    let rest = kept_parts parts in if is_component part then part ∷ rest else rest

-- A `.` in front of a relative path stays.
abbrev relative_parts : List Bytes → List Bytes
relative_parts [] = []
relative_parts (part ∷ parts) =
    if bytes_eq part (codes ".") then part ∷ kept_parts parts else kept_parts (part ∷ parts)

abbrev root_part : Bytes → List Bytes
root_part [] = []
root_part (c ∷ rest) = if c == b'/' then codes "/" ∷ [] else []

unfoldable pub components : Bytes → List Bytes
components path = root_part path ++ relative_parts (split_slashes path)

abbrev same_parts : List Bytes → List Bytes → Bool
same_parts [] [] = true
same_parts (part ∷ parts) (other ∷ others) = bytes_eq part other && same_parts parts others
same_parts _ _ = false

-- `PathBuf`'s `Eq`, which agrees with its `Ord`
unfoldable pub path_eq : Bytes → Bytes → Bool
unfolding components
path_eq a b = same_parts (components a) (components b)

bytes_eq-eq : (a b : Bytes) → bytes_eq a b ≡ true → a ≡ b
bytes_eq-eq [] [] e = refl
bytes_eq-eq [] (d ∷ b) e = cc
bytes_eq-eq (c ∷ a) [] e = cc
bytes_eq-eq (c ∷ a) (d ∷ b) e = grind (arith, bytes_eq-eq a b)

bytes_eq_sym : (a b : Bytes) → bytes_eq a b ≡ bytes_eq b a
bytes_eq_sym [] [] = refl
bytes_eq_sym [] (d ∷ b) = refl
bytes_eq_sym (c ∷ a) [] = refl
bytes_eq_sym (c ∷ a) (d ∷ b) = grind (arith, bytes_eq_sym a b)

same_parts-eq : (a b : List Bytes) → same_parts a b ≡ true → a ≡ b
same_parts-eq [] [] e = refl
same_parts-eq [] (d ∷ b) e = cc
same_parts-eq (c ∷ a) [] e = cc
same_parts-eq (c ∷ a) (d ∷ b) e = grind (arith, same_parts-eq a b, bytes_eq-eq c d)

same_parts_sym : (a b : List Bytes) → same_parts a b ≡ same_parts b a
same_parts_sym [] [] = refl
same_parts_sym [] (d ∷ b) = refl
same_parts_sym (c ∷ a) [] = refl
same_parts_sym (c ∷ a) (d ∷ b) = rw (bytes_eq_sym c d, same_parts_sym a b) refl

pub path_eq_sym : (a b : Bytes) → path_eq a b ≡ path_eq b a
unfolding path_eq
path_eq_sym a b = same_parts_sym (components a) (components b)

-- Equal paths are equal to the same paths.
pub path_eq-congruent : (other a b : Bytes) → path_eq a b ≡ true → path_eq other a ≡ path_eq other b
unfolding path_eq
path_eq-congruent other a b e =
    ap (same_parts (components other)) (same_parts-eq (components a) (components b) e)
