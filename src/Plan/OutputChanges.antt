-- ===== src/Plan/OutputChanges.antt =====
-- Registering an output file keeps the files numbered and their paths apart (src/planner.rs).
use rushfind.Plan.Changes.{Changes, Changes-refl, Numbered, Distinct, output_id, or_false}
use rushfind.Plan.State.{PlannedFileOutput, Planning}
use rushfind.Plan.LowerAction.{registered, register_file_output, path_id}
use rushfind.Std.Paths.{path_eq, path_eq_sym, path_eq-congruent}
use rushfind.Prelude.{
  Option, inr, Bool-cases, if_known, refl, arith, if◌then◌else◌, length, [], ◌∙◌, sym, ◌+◌, ◌∷◌,
  ◌++◌, inl, ◌≡◌, ℕ, Bytes, List, true, false, none, some,
}
use rushfind.Walk.Walker.{is_post_order}

-- A file at the end of the list.
pub Numbered-append :
    (n k : ℕ) (outputs : List PlannedFileOutput) (path : Bytes)
    → k ≡ n + length outputs
    → Numbered n outputs
    → Numbered n (outputs ++ record { id = k; path = path } ∷ [])
Numbered-append n k [] path e w = (omega (arith, e), tt)
Numbered-append n k (output ∷ outputs) path e w =
    (w.0, Numbered-append (n + 1) k outputs path (omega (arith, e)) (w.1))

output_id-path_eq :
    (outputs : List PlannedFileOutput) (path other : Bytes)
    → path_eq path other ≡ true
    → output_id outputs path ≡ output_id outputs other
output_id-path_eq [] path other e = refl
output_id-path_eq (output ∷ outputs) path other e =
    rw (path_eq-congruent output.path path other e, output_id-path_eq outputs path other e) refl

pub output_id-append :
    (outputs : List PlannedFileOutput) (path other : Bytes) (id : ℕ)
    → output_id (outputs ++ record { id = id; path = path } ∷ []) other
      ≡ elim (output_id outputs other) [
        | some found ↦ some found
        | none ↦ if path_eq path other then some id else none
      ]
output_id-append [] path other id = refl
output_id-append (output ∷ outputs) path other id =
    if_known
      (λ found.
        (if path_eq output.path other
          then some output.id
          else output_id (outputs ++ record { id = id; path = path } ∷ []) other)
        ≡ elim found [ some k ↦ some k | none ↦ if path_eq path other then some id else none ])
      (path_eq output.path other) (some output.id) (output_id outputs other) (λ same. rw same refl)
      λ differs. rw differs (output_id-append outputs path other id)

pub Distinct-append :
    (outputs : List PlannedFileOutput) (path : Bytes) (id : ℕ)
    → Distinct outputs
    → output_id outputs path ≡ none
    → Distinct (outputs ++ record { id = id; path = path } ∷ [])
Distinct-append [] path id d n = (refl, tt)
Distinct-append (output ∷ outputs) path id d n = (
  grind (arith, n, d.0, path_eq_sym path output.path, output_id-append outputs path output.path id),
  Distinct-append outputs path id (d.1) (grind (arith, n)),
)

pub path_id-added :
    (ids : List (Bytes × ℕ)) (outputs : List PlannedFileOutput) (path other : Bytes) (id : ℕ)
    → output_id outputs path ≡ none
    → path_id ids other ≡ output_id outputs other
    → path_id ((path, id) ∷ ids) other
      ≡ output_id (outputs ++ record { id = id; path = path } ∷ []) other
path_id-added ids outputs path other id absent same = elim (Bool-cases (path_eq path other)) [
  | inl e ↦
      let gone : output_id outputs other ≡ none =
        sym (output_id-path_eq outputs path other e) ∙ absent in
      grind (arith, e, gone, output_id-append outputs path other id)
  | inr e ↦ grind (arith, e, same, output_id-append outputs path other id)
]

pub registered-Changes :
    (found : Option ℕ) (path : Bytes) (s : Planning)
    → path_id s.state.file_output_ids path ≡ found
    → Changes false false false s (registered found path s).1
registered-Changes (some existing) path s known = Changes-refl s
registered-Changes none path s new_path = (
  or_false s.state.saw_action,
  or_false s.state.saw_delete,
  or_false (is_post_order s.traversal.order),
  λ (numbered, distinct, same).
      let absent : output_id s.state.file_outputs path ≡ none = sym (same path) ∙ new_path in
      (
        Numbered-append 0 (length s.state.file_outputs) s.state.file_outputs path (omega arith)
            numbered,
        Distinct-append s.state.file_outputs path (length s.state.file_outputs) distinct absent,
        λ other.
            path_id-added s.state.file_output_ids s.state.file_outputs path other
              (length s.state.file_outputs) absent (same other),
      ),
)

pub register_file_output-Changes :
    (path : Bytes) (s : Planning) → Changes false false false s (register_file_output path s).1
unfolding register_file_output
register_file_output-Changes path s = registered-Changes _ path s refl
