-- ===== src/Command.antt =====
-- The command line: its syntax, how it is read, and how it is written (src/args.rs, src/ast.rs,
-- src/parser.rs).
pub mod Ast
pub mod Tokens
pub mod Atoms
pub mod Parser
pub mod Ends
pub mod Printer
pub mod AtomRoundTrip
pub mod Operands
pub mod RoundTrip
pub mod Whole
pub mod Tests
