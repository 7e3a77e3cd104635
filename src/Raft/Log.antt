-- ===== src/Raft/Log.antt =====
-- crates/noedb-raft/src/log.rs: the replicated log, with the sentinel entry at index 0.
-- `usize` and `u64` are both 64 bits wide, so the source's casts leave an index as it is.
mod Laws
pub use Laws.*
mod Defs
unfoldable pub use Defs.*
