-- ===== src/Eval/Ran.antt =====
-- Runs with a sink state, and how they compose.
use rushfind.Prelude.{Bool, true, false, ◌≡◌, refl}
use rushfind.Diagnostics.{Result, ok, err}

-- The result of a run, and the sink's state after it.
abbrev pub Ran : Type 0 → Type 0 → Type 0
Ran S A = Result A × S

abbrev pub bind : {S A B : Type 0} → Ran S A → (A → S → Ran S B) → Ran S B
bind (ok a, s) f = f a s
bind (err d, s) f = (err d, s)

pub bind_assoc :
    {S A B C : Type 0} (m : Ran S A) (f : A → S → Ran S B) (g : B → S → Ran S C)
    → bind (bind m f) g ≡ bind m (λ a s. bind (f a s) g)
bind_assoc (ok a, s) f g = refl
bind_assoc (err d, s) f g = refl

pub bind-fun_ext :
    {S A B : Type 0} (m : Ran S A) (f g : A → S → Ran S B)
    → ((a : A) (s : S) → f a s ≡ g a s)
    → bind m f ≡ bind m g
bind-fun_ext (ok a, s) f g h = h a s
bind-fun_ext (err d, s) f g h = refl

pub bind-elim :
    {S A B : Type 0} (b : Bool) (x y : Ran S A) (f : A → S → Ran S B)
    → bind (elim b [ true ↦ x | false ↦ y ]) f ≡ elim b [ true ↦ bind x f | false ↦ bind y f ]
bind-elim true x y f = refl
bind-elim false x y f = refl

pub bind_pure : {S A : Type 0} (m : Ran S A) → bind m (λ a s. (ok a, s)) ≡ m
bind_pure (ok a, s) = refl
bind_pure (err d, s) = refl
