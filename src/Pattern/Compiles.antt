-- ===== src/Pattern/Compiles.antt =====
-- Compiling a glob ends: its fuel is enough, and the only errors are the two of
-- src/pattern/parse.rs, for `[[.` and `[[=` in a class.
use rushfind.Prelude.{
  ℕ, zero, suc, ◌≤◌, Bool, true, false, List, [], ◌∷◌, ◌++◌, Option, none, some, ◌≡◌, ◌⊎◌, ◌==◌,
  ◌&&◌, not, if◌then◌else◌, if_cases, Bytes, length, arith,
}
use native.Mathlib.Nat.{le_refl}
use rushfind.Diagnostics.{
  Diagnostic, Result, ok, err, ◌>>=◌, new, collating_symbols_out_of_scope,
  equivalence_classes_out_of_scope,
}
use rushfind.Pattern.Ir.{ClassItem, GlobClass, GlobProgram}
use rushfind.Pattern.Parse.{
  escaped, consume_class_byte, range_to, item_from, negation, tail_bytes, starts_with, class_item,
  class_loop, class_atom, backslash, try_parse_class, next_atom, compile_loop, compile_pattern,
}

abbrev pub OutOfScope : Bytes → Diagnostic → Type 0
OutOfScope flag d =
    (d ≡ new (collating_symbols_out_of_scope flag) 1)
    ⊎ (d ≡ new (equivalence_classes_out_of_scope flag) 1)

-- A value of which `P` holds, or one of the two errors.
abbrev pub Ends {ℓ} : {A : Type ℓ} → Bytes → (A → Type 0) → Result A → Type 0
Ends flag P (err diagnostic) = OutOfScope flag diagnostic
Ends flag P (ok read) = P read

Ends-bind {ℓ κ} :
    {A : Type ℓ} {B : Type κ} (flag : Bytes) (P : A → Type 0) (Q : B → Type 0) (first : Result A)
    (next : A → Result B)
    → Ends flag P first
    → ((read : A) → P read → Ends flag Q (next read))
    → Ends flag Q (first >>= next)
Ends-bind flag P Q (err diagnostic) next refused continue = refused
Ends-bind flag P Q (ok read) next holds continue = continue read holds

-- What is left is at most `n` bytes long, if anything was read.
abbrev Leaves {ℓ} : {A : Type ℓ} → ℕ → Option (A × Bytes) → Type 0
Leaves n none = Unit
Leaves n (some (a, rest)) = length rest ≤ n

Leaves-mono {ℓ} : {A : Type ℓ} (m n : ℕ) (o : Option (A × Bytes)) → m ≤ n → Leaves m o → Leaves n o
Leaves-mono m n none h l = tt
Leaves-mono m n (some (a, rest)) h l = omega arith

module _ (flag : Bytes) where
  Ends-Leaves-mono {ℓ} :
      {A : Type ℓ} (m n : ℕ) (r : Result (Option (A × Bytes)))
      → m ≤ n
      → Ends flag (Leaves m) r
      → Ends flag (Leaves n) r
  Ends-Leaves-mono m n (ok o) h e = Leaves-mono m n o h e
  Ends-Leaves-mono m n (err d) h e = e

  consume_class_byte-Ends :
      (c : ℕ) (rest : Bytes) → Ends flag (Leaves (length rest)) (consume_class_byte flag (c ∷ rest))
  unfolding consume_class_byte
  consume_class_byte-Ends c [] = ground arith
  consume_class_byte-Ends c (d ∷ rest) = ground arith

  range_to-Ends :
      (n start : ℕ) (o : Option (ℕ × Bytes)) → Leaves n o → Ends flag (Leaves n) (range_to start o)
  unfolding range_to
  range_to-Ends n start none h = tt
  range_to-Ends n start (some (end, rest)) h = h

  range_end-Ends :
      (n start e : ℕ) (rest : Bytes)
      → length rest ≤ n
      → Ends flag (Leaves n) (consume_class_byte flag (e ∷ rest) >>= range_to start)
  range_end-Ends n start e rest h =
      Ends-bind flag (Leaves (length rest)) (Leaves n) (consume_class_byte flag (e ∷ rest))
        (range_to start) (consume_class_byte-Ends e rest)
        (λ o l. range_to-Ends n start o (Leaves-mono (length rest) n o h l))

  item_from-Ends :
      (n : ℕ) (o : Option (ℕ × Bytes)) → Leaves n o → Ends flag (Leaves n) (item_from flag o)
  unfolding item_from
  item_from-Ends n none h = tt
  item_from-Ends n (some (start, [])) h = h
  item_from-Ends n (some (start, d ∷ [])) h = h
  item_from-Ends n (some (start, d ∷ e ∷ rest)) h =
      if_cases (Ends flag (Leaves n)) (d == b'-' && not (e == b']')) _ _
        (range_end-Ends n start e rest (omega arith)) h

  class_item-Ends :
      (c : ℕ) (rest : Bytes) → Ends flag (Leaves (length rest)) (class_item flag (c ∷ rest))
  unfolding class_item
  class_item-Ends c rest =
      Ends-bind flag (Leaves (length rest)) (Leaves (length rest))
        (consume_class_byte flag (c ∷ rest)) (item_from flag) (consume_class_byte-Ends c rest)
        (item_from-Ends (length rest))

  class_loop-Ends :
      (fuel : ℕ) (negated : Bool) (pattern : Bytes) (items : List ClassItem) (saw : Bool)
      → length pattern ≤ fuel
      → Ends flag (Leaves (length pattern)) (class_loop fuel flag negated pattern items saw)
  unfolding class_loop
  class_loop-Ends fuel negated [] items saw h = tt
  class_loop-Ends zero negated (c ∷ rest) items saw h = absurd (omega arith)
  class_loop-Ends (suc fuel) negated (c ∷ rest) items saw h =
      if_cases (Ends flag (Leaves (suc (length rest)))) (c == b']' && saw) _ _ (omega arith) (
        Ends-bind flag (Leaves (length rest)) (Leaves (suc (length rest)))
          (class_item flag (c ∷ rest)) _ (class_item-Ends c rest)
          elim [
            | none ↦ λ l. tt
            | some (item, after) ↦ λ l.
                Ends-Leaves-mono (length after) _
                  (class_loop fuel flag negated after (items ++ item ∷ []) true) (omega arith)
                  (class_loop-Ends fuel negated after (items ++ item ∷ []) true (omega arith))
          ])

  try_parse_class-Ends :
      (pattern : Bytes) → Ends flag (Leaves (length pattern)) (try_parse_class flag pattern)
  unfolding try_parse_class
  try_parse_class-Ends pattern =
      body-Ends (negation pattern).0 (negation pattern).1 (length-negation pattern)
    where
      length-negation : (p : Bytes) → length (negation p).1 ≤ length p
      length-negation [] = omega arith
      length-negation (c ∷ rest) = ground arith

      body-Ends :
          (negated : Bool) (body : Bytes)
          → length body ≤ length pattern
          → Ends flag (Leaves (length pattern)) (
              if starts_with b']' body
              then class_loop
                  (length body)
                  flag
                  negated
                  (tail_bytes body)
                  (ClassItem.literal b']' ∷ [])
                  true
              else class_loop (length body) flag negated body [] false)
      body-Ends negated [] h = tt
      body-Ends negated (c ∷ rest) h =
          if_cases (Ends flag (Leaves (length pattern))) (c == b']') _ _
            (Ends-Leaves-mono (length rest) _
              (class_loop (suc (length rest)) flag negated rest (ClassItem.literal b']' ∷ []) true)
              (omega arith) (class_loop-Ends (suc (length rest)) negated rest _ true (omega arith)))
            (Ends-Leaves-mono (suc (length rest)) _
              (class_loop (suc (length rest)) flag negated (c ∷ rest) [] false) h
              (class_loop-Ends (suc (length rest)) negated (c ∷ rest) [] false (omega arith)))

  abbrev Shrinks : ℕ → GlobProgram × Bytes → Type 0
  Shrinks n (program, rest) = length rest ≤ n

  class_atom-Shrinks :
      (rest : Bytes) (program : GlobProgram) (parsed : Option (GlobClass × Bytes))
      → Leaves (length rest) parsed
      → Shrinks (length rest) (class_atom rest program parsed)
  unfolding class_atom
  class_atom-Shrinks rest program none l = omega arith
  class_atom-Shrinks rest program (some (c, after)) l = l

  length-escaped : (rest : Bytes) → length (escaped rest).1 ≤ length rest
  unfolding escaped
  length-escaped [] = omega arith
  length-escaped (c ∷ rest) = omega arith

  next_atom-Ends :
      (byte : ℕ) (rest : Bytes) (program : GlobProgram)
      → Ends flag (Shrinks (length rest)) (next_atom flag byte rest program)
  unfolding next_atom
  next_atom-Ends byte rest program =
      let P = Ends flag (Shrinks (length rest)) in
      if_cases P (byte == backslash) _ _ (length-escaped rest) (
        if_cases P (byte == b'*') _ _ (le_refl _) (
          if_cases P (byte == b'?') _ _ (le_refl _) (
            if_cases P (byte == b'[') _ _
              (Ends-bind flag (Leaves (length rest)) (Shrinks (length rest))
                (try_parse_class flag rest) _ (try_parse_class-Ends rest)
                (class_atom-Shrinks rest program))
              (le_refl _))))

  compile_loop-Ends :
      (fuel : ℕ) (pattern : Bytes) (program : GlobProgram)
      → length pattern ≤ fuel
      → Ends flag (λ _. Unit) (compile_loop fuel flag pattern program)
  unfolding compile_loop
  compile_loop-Ends fuel [] program h = tt
  compile_loop-Ends zero (c ∷ rest) program h = absurd (omega arith)
  compile_loop-Ends (suc fuel) (c ∷ rest) program h =
      Ends-bind flag (Shrinks (length rest)) (λ _. Unit) (next_atom flag c rest program) _
        (next_atom-Ends c rest program)
        λ (program', after) l. compile_loop-Ends fuel after program' (omega arith)

-- Compiling any pattern ends, and returns a program or one of the two errors for a class that holds
-- `[.` or `[=`; the loops never run out of fuel.
pub compile_pattern-Ends :
    (flag pattern : Bytes) → Ends flag (λ _. Unit) (compile_pattern flag pattern)
unfolding compile_pattern
compile_pattern-Ends flag pattern = compile_loop-Ends flag (length pattern) pattern [] (omega arith)
