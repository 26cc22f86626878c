-- ===== src/Exec/Substitution.antt =====
-- What a command is called with (src/exec/template.rs).
use rushfind.Exec.Template.{
  is_placeholder, literal_of, last_literal, segments_from, compile_segments, compile_immediate_exec,
  render_template, render_segments,
}
use rushfind.Plan.Types.{ExecSemantics, ExecTemplateSegment}
use rushfind.Prelude.{
  sym, refl, ◌∙◌, map, [], ap, ◌≡◌, ◌++◌, Bool, ◌∷◌, Bytes, List, true, false, append_assoc,
  append-nil,
}

-- Each `{}`, from the left, gives way to the path.
abbrev pub substituted : Bytes → Bytes → Bytes
substituted path_bytes [] = []
substituted path_bytes (c ∷ []) = c ∷ []
substituted path_bytes (c ∷ d ∷ rest) = elim (is_placeholder c d) [
  | true ↦ path_bytes ++ substituted path_bytes rest
  | false ↦ c ∷ substituted path_bytes (d ∷ rest)
]

render_template-append :
    (path_bytes : Bytes) (front back : List ExecTemplateSegment)
    → render_template path_bytes (front ++ back)
      ≡ render_template path_bytes front ++ render_template path_bytes back
unfolding render_template
render_template-append path_bytes [] back = refl
render_template-append path_bytes (ExecTemplateSegment.literal text ∷ front) back =
    ap (λ bytes. text ++ bytes) (render_template-append path_bytes front back)
    ∙ sym (append_assoc text (render_template path_bytes front) (render_template path_bytes back))
render_template-append path_bytes (ExecTemplateSegment.path ∷ front) back =
    ap (λ bytes. path_bytes ++ bytes) (render_template-append path_bytes front back)
    ∙ sym (
        append_assoc path_bytes (render_template path_bytes front)
          (render_template path_bytes back))

render_template-literal_of :
    (path_bytes pending : Bytes) → render_template path_bytes (literal_of pending) ≡ pending
unfolding render_template
render_template-literal_of path_bytes [] = refl
render_template-literal_of path_bytes (c ∷ pending) = append-nil (c ∷ pending)

render_template-last_literal :
    (path_bytes pending : Bytes) (found : Bool)
    → render_template path_bytes (last_literal pending found) ≡ pending
unfolding render_template
render_template-last_literal path_bytes [] true = refl
render_template-last_literal path_bytes [] false = refl
render_template-last_literal path_bytes (c ∷ pending) found = append-nil (c ∷ pending)

render_template-segments_from :
    (path_bytes pending : Bytes) (found : Bool) (bytes : Bytes)
    → render_template path_bytes (segments_from pending found bytes)
      ≡ pending ++ substituted path_bytes bytes
unfolding segments_from render_template
render_template-segments_from path_bytes pending found [] =
    render_template-last_literal path_bytes pending found ∙ sym (append-nil pending)
render_template-segments_from path_bytes pending found (c ∷ []) =
    render_template-last_literal path_bytes (pending ++ c ∷ []) found
render_template-segments_from path_bytes pending found (c ∷ d ∷ rest) =
    elim (is_placeholder c d)
      as (λ b.
        render_template path_bytes (elim b [
          | true ↦ literal_of pending ++ ExecTemplateSegment.path ∷ segments_from [] true rest
          | false ↦ segments_from (pending ++ c ∷ []) found (d ∷ rest)
        ])
        ≡ pending ++ elim b [
          | true ↦ path_bytes ++ substituted path_bytes rest
          | false ↦ c ∷ substituted path_bytes (d ∷ rest)
        ]) [
          | true ↦
              render_template-append path_bytes (literal_of pending)
                (ExecTemplateSegment.path ∷ segments_from [] true rest)
              ∙ rw
                  (
                    render_template-literal_of path_bytes pending,
                    render_template-segments_from path_bytes [] true rest,
                  )
                  refl
          | false ↦
              render_template-segments_from path_bytes (pending ++ c ∷ []) found (d ∷ rest)
              ∙ append_assoc pending (c ∷ []) (substituted path_bytes (d ∷ rest))
        ]

-- Every argument of an immediate command is what was written, with each `{}` in it, read from the left,
-- replaced by the path.
pub render_segments-compile_immediate_exec :
    (semantics : ExecSemantics) (argv : List Bytes) (path_bytes : Bytes)
    → render_segments (compile_immediate_exec semantics argv).argv path_bytes
      ≡ map (substituted path_bytes) argv
unfolding render_segments compile_immediate_exec compile_segments
render_segments-compile_immediate_exec semantics [] path_bytes = refl
render_segments-compile_immediate_exec semantics (arg ∷ argv) path_bytes =
    rw
      (
        render_template-segments_from path_bytes [] false arg,
        render_segments-compile_immediate_exec semantics argv path_bytes,
      )
      refl
