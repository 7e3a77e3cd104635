-- ===== src/Storage.antt =====
-- The storage crate (crates/noedb-storage/src) outside its mvcc folder.
pub mod Error
pub mod Checksum
pub mod MemTable
pub mod Wal
pub mod Lsm
pub mod WriteStall
pub mod Compaction
pub mod Block
pub mod Bloom
pub mod XorFilter
mod Tests
