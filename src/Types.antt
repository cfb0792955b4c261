-- ===== src/Types.antt =====
-- The types that the server reports, as rules read them.
pub mod Hasher
pub mod Graph
mod Examples
