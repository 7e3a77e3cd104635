-- ===== src/Engine.antt =====
-- The engine (crates/noedb-engine/src): the parts that are modelled.
pub mod StmtCache
pub mod Rls
mod Tests
mod RlsTests
