-- ===== src/Lint.antt =====
-- The lint driver: rules by name, directives in comments, globs, positions.
pub mod Registry
pub mod Text
pub mod Directives
pub mod Glob
pub mod Regex
pub mod Columns
pub mod Messages
pub mod Schema
mod Examples
