-- ===== src/Mvcc.antt =====
-- Multi-version storage (crates/noedb-storage/src/mvcc): versions, keys, snapshots and the table.
pub mod Version
pub mod Key
pub mod Codec
pub mod View
pub mod Table
mod Tests
