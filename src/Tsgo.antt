-- ===== src/Tsgo.antt =====
-- The wire formats spoken with the TypeScript server.
pub mod Json
pub mod Msgpack
