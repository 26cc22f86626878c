-- ===== src/Pattern/Ir.antt =====
-- Compiled glob programs (src/pattern/ir.rs) and the two modes of a glob (src/pattern/mod.rs).
use rushfind.Prelude.{ℕ, Bool, List}

pub data ClassItem : Type 0 where
  literal : ℕ → ClassItem
  range : ℕ → ℕ → ClassItem

pub record GlobClass : Type 0 where
  pub negated : Bool
  pub items : List ClassItem

pub data GlobAtom : Type 0 where
  literal : ℕ → GlobAtom
  any_byte : GlobAtom
  any_sequence : GlobAtom
  class : GlobClass → GlobAtom

abbrev pub GlobProgram : Type 0
GlobProgram = List GlobAtom

pub data GlobCaseMode : Type 0 where
  sensitive insensitive : GlobCaseMode

pub data GlobSlashMode : Type 0 where
  literal pathname : GlobSlashMode
