-- ===== src/Command/Tokens.antt =====
-- The cursor over the arguments (src/args.rs). An argument is its bytes, and the cursor the arguments
-- that are left. A token in a message is kept as its bytes, where the source renders it as UTF-8.
use Prim.Native.String.{String}
use rushfind.Prelude.{◌==◌, codes, false, bytes_eq, [], Bool, List, Bytes, ◌∷◌}
use rushfind.Diagnostics.{ok, err, Result, Diagnostic}

abbrev pub Tokens : Type 0
Tokens = List Bytes

-- A reader of the cursor, as the parser's methods are.
abbrev pub Reader : Type 0 → Type 0
Reader A = Tokens → Result (A × Tokens)

-- `Arg::matches`
abbrev pub matches : Bytes → String → Bool
matches token value = bytes_eq token (codes value)

unfoldable pub starts_with_dash : Bytes → Bool
starts_with_dash [] = false
starts_with_dash (c ∷ rest) = c == b'-'

-- `peek`, where there is a token of which the test holds.
abbrev pub next_is : (Bytes → Bool) → Tokens → Bool
next_is test [] = false
next_is test (token ∷ rest) = test token

-- What is left once `bump` has been called.
abbrev pub bumped : Tokens → Tokens
bumped [] = []
bumped (token ∷ rest) = rest

-- `bump`, where there has to be a token.
abbrev pub bump_or : Diagnostic → Reader Bytes
bump_or error [] = err error
bump_or error (token ∷ rest) = ok (token, rest)
