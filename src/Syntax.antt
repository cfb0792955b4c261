-- ===== src/Syntax.antt =====
-- The grammar tree that the parser builds.
pub mod Lines
pub mod Scanner
pub mod Tree
mod Examples
