-- ===== src/Diagnostics.antt =====
-- Diagnostics, and the result of a fallible operation (src/diagnostics.rs).
-- A rendered message is a constructor that holds the values which `format!` puts in.
use rushfind.Prelude.{ℕ, Bytes, ◌≡◌, refl, subst}

pub data Message : Type 0 where
  invalid_size_argument : Bytes → Message
  invalid_numeric_argument : Bytes → Bytes → Message
  invalid_mode : Bytes → Message
  collating_symbols_out_of_scope : Bytes → Message
  equivalence_classes_out_of_scope : Bytes → Message
  missing_field : Bytes → Bytes → Message
  loop_detected : Bytes → Message
  needs_mount_snapshot : Message
  needs_frozen_now : Message
  unexpected_trailing_token : Bytes → Message
  expected_close unexpected_close expected_predicate_or_action unterminated_exec : Message
  unsupported_token : Bytes → Message
  missing_argument : Bytes → Message
  unsupported_type : Bytes → Bytes → Message
  invalid_time_amount : Message
  unsupported : Bytes → Message
  only_on_windows : Bytes → Message
  unsupported_directive_on_windows : Bytes → Message
  unknown_reparse_type : Bytes → Message
  invalid_current_timestamp_kind : ℕ → Message
  only_semicolon : Bytes → Message
  misplaced_placeholder : Bytes → Message
  -- an error of the platform, with the text it brings
  platform : Bytes → Message
  -- of the model only: a panic of the program
  panic : Message
  -- of the model only: a loop ran past its fuel, which the theorems rule out
  out_of_fuel : Message

pub record Diagnostic : Type 0 where
  pub message : Message
  pub exit_code : ℕ

-- `Diagnostic::new`
abbrev pub new : Message → ℕ → Diagnostic
new message exit_code = record { message = message; exit_code = exit_code }

-- `Diagnostic::parse`
abbrev pub parse : Message → Diagnostic
parse message = new message 1

pub data Result {ℓ} (A : Type ℓ) : Type ℓ where
  err : Diagnostic → Result A
  ok : A → Result A

-- Rust's `?`
module _ {ℓ κ} {A : Type ℓ} {B : Type κ} where
  infixl 5 ◌>>=◌
  abbrev pub ◌>>=◌ : Result A → (A → Result B) → Result B
  err diagnostic >>= next = err diagnostic
  ok value >>= next = next value

  -- Where a chain succeeds, so does its first step.
  pub >>=-eq-ok :
      {result : B} (first : Result A) (next : A → Result B)
      → first >>= next ≡ ok result
      → (value : A) × (first ≡ ok value) × (next value ≡ ok result)
  >>=-eq-ok (err diagnostic) next e = cc
  >>=-eq-ok (ok value) next e = (value, refl, e)

pub ok-injective {ℓ} : {A : Type ℓ} {a b : A} → ok a ≡ ok b → a ≡ b
ok-injective e = cc

-- A predicate holds of the value, where there is one.
abbrev pub OnOk {ℓ κ} : {A : Type ℓ} → (A → Type κ) → Result A → Type κ
OnOk P (ok a) = P a
OnOk P (err e) = Unit

pub >>=-OnOk {ℓ κ λ'} :
    {A : Type ℓ} {B : Type κ} (P : A → Type λ') (Q : B → Type λ') (m : Result A) (f : A → Result B)
    → OnOk P m
    → ((a : A) → P a → OnOk Q (f a))
    → OnOk Q (m >>= f)
>>=-OnOk P Q (ok a) f p h = h a p
>>=-OnOk P Q (err e) f p h = tt

pub OnOk-eq {ℓ κ} : {A : Type ℓ} (P : A → Type κ) (m : Result A) (a : A) → OnOk P m → m ≡ ok a → P a
OnOk-eq P (ok b) a p h = subst P (ok-injective h) p
OnOk-eq P (err e) a p h = cc

pub >>=-fun_ext {ℓ κ} :
    {A : Type ℓ} {B : Type κ} (m : Result A) (f g : A → Result B)
    → ((a : A) → f a ≡ g a)
    → (m >>= f) ≡ (m >>= g)
>>=-fun_ext (ok a) f g h = h a
>>=-fun_ext (err e) f g h = refl

pub OnOk-tt {ℓ} : {A : Type ℓ} (m : Result A) → OnOk (λ _. Unit {0}) m
OnOk-tt (ok a) = tt
OnOk-tt (err e) = tt

pub OnOk-self {ℓ} : {A : Type ℓ} (m : Result A) → OnOk (λ a. m ≡ ok a) m
OnOk-self (ok a) = refl
OnOk-self (err e) = tt

-- What is known of a result is known of it together with where it came from.
pub OnOk-known {ℓ κ} :
    {A : Type ℓ} (P : A → Type κ) (m : Result A) → OnOk P m → OnOk (λ a. (m ≡ ok a) × P a) m
OnOk-known P (ok a) p = (refl, p)
OnOk-known P (err e) p = tt

pub OnOk-map {ℓ κ λ'} :
    {A : Type ℓ} (P : A → Type κ) (Q : A → Type λ') (m : Result A)
    → ((a : A) → P a → Q a)
    → OnOk P m
    → OnOk Q m
OnOk-map P Q (ok a) h p = h a p
OnOk-map P Q (err e) h p = tt
