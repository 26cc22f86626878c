-- ===== src/Exec/Template.antt =====
-- Compiling the arguments of a command (src/exec/template.rs).
use rushfind.Plan.Types.{
  ExecSemantics, normal, dir_local, ExecTemplateSegment, ImmediateExecAction, BatchedExecAction,
}
use rushfind.Diagnostics.{ok, err, Result, parse, misplaced_placeholder}
use rushfind.Prelude.{
  is_empty, true, false, any, length, zero, not, ◌&&◌, ◌||◌, if◌then◌else◌, bytes_eq, suc, ◌+◌,
  ◌++◌, ◌==◌, ℕ, codes, map, [], ◌∷◌, Bool, List, Bytes,
}

abbrev pub is_placeholder : ℕ → ℕ → Bool
is_placeholder c d = (c == b'{') && (d == b'}')

abbrev pub literal_of : Bytes → List ExecTemplateSegment
literal_of [] = []
literal_of (c ∷ pending) = ExecTemplateSegment.literal (c ∷ pending) ∷ []

-- The last literal, which is there if it has a byte, or there is no other segment.
abbrev pub last_literal : Bytes → Bool → List ExecTemplateSegment
last_literal pending found =
    if not (is_empty pending) || not found then ExecTemplateSegment.literal pending ∷ [] else []

-- The loop of `compile_segments`: the bytes since `start`, whether a segment was pushed, and the bytes
-- from `index` on.
unfoldable pub segments_from : Bytes → Bool → Bytes → List ExecTemplateSegment
segments_from pending found [] = last_literal pending found
segments_from pending found (c ∷ []) = last_literal (pending ++ c ∷ []) found
segments_from pending found (c ∷ d ∷ rest) = elim (is_placeholder c d) [
  | true ↦ literal_of pending ++ ExecTemplateSegment.path ∷ segments_from [] true rest
  | false ↦ segments_from (pending ++ c ∷ []) found (d ∷ rest)
]

unfoldable pub compile_segments : Bytes → List ExecTemplateSegment
unfolding segments_from
compile_segments arg = segments_from [] false arg

unfoldable pub compile_immediate_exec : ExecSemantics → List Bytes → ImmediateExecAction
unfolding compile_segments
compile_immediate_exec semantics argv = record {
  semantics = semantics;
  argv = map compile_segments argv;
}

-- `batch_flag`
abbrev pub batch_flag : ExecSemantics → Bytes
batch_flag normal = codes "-exec ... +"
batch_flag dir_local = codes "-execdir ... +"

unfoldable pub is_standalone_placeholder : Bytes → Bool
is_standalone_placeholder arg = bytes_eq arg (codes "{}")

-- `windows(2).any(…)`
unfoldable pub contains_placeholder : Bytes → Bool
contains_placeholder [] = false
contains_placeholder (c ∷ []) = false
contains_placeholder (c ∷ d ∷ rest) = is_placeholder c d || contains_placeholder (d ∷ rest)

-- The indexes of the standalone placeholders, from `index` on.
unfoldable pub placeholder_indexes : ℕ → List Bytes → List ℕ
unfolding is_standalone_placeholder
placeholder_indexes index [] = []
placeholder_indexes index (arg ∷ argv) =
    let later = placeholder_indexes (index + 1) argv in
    if is_standalone_placeholder arg then index ∷ later else later

abbrev pub take : ℕ → List Bytes → List Bytes
take zero argv = []
take (suc n) [] = []
take (suc n) (arg ∷ argv) = arg ∷ take n argv

-- What follows the indexes.
unfoldable pub batched_at : ℕ → ExecSemantics → List Bytes → List ℕ → Result BatchedExecAction
unfolding is_standalone_placeholder contains_placeholder
batched_at id semantics argv [] = err (parse (misplaced_placeholder (batch_flag semantics)))
batched_at id semantics argv (index ∷ others) =
    if not (is_empty others) || not (index + 1 == length argv)
    then err (parse (misplaced_placeholder (batch_flag semantics)))
    else if any (λ arg. not (is_standalone_placeholder arg) && contains_placeholder arg) argv
    then err (parse (misplaced_placeholder (batch_flag semantics)))
    else ok (record { id = id; semantics = semantics; argv_prefix = take index argv })

unfoldable pub compile_batched_exec : ℕ → ExecSemantics → List Bytes → Result BatchedExecAction
unfolding batched_at placeholder_indexes
compile_batched_exec id semantics argv = batched_at id semantics argv (placeholder_indexes 0 argv)

-- The inner loop of `render_segments`.
unfoldable pub render_template : Bytes → List ExecTemplateSegment → Bytes
render_template path_bytes [] = []
render_template path_bytes (ExecTemplateSegment.literal text ∷ template) =
    text ++ render_template path_bytes template
render_template path_bytes (ExecTemplateSegment.path ∷ template) =
    path_bytes ++ render_template path_bytes template

unfoldable pub render_segments : List (List ExecTemplateSegment) → Bytes → List Bytes
unfolding render_template
render_segments argv path_bytes = map (render_template path_bytes) argv
