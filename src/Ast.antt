-- ===== src/Ast.antt =====
-- The syntax tree that rules and fixes work on.
pub mod Node
pub mod Levels
pub mod Precedence
pub mod Fixpoint
mod Examples
