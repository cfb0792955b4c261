-- ===== src/Rules.antt =====
-- The analyses that the lint rules share.
pub mod Flow
