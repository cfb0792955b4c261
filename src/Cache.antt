-- ===== src/Cache.antt =====
-- The dependency closure: paths, the resolution of imports, the graph of files.
pub mod Paths
pub mod Resolve
pub mod Graph
pub mod Freshness
mod Examples
