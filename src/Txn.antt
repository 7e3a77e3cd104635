-- ===== src/Txn.antt =====
-- Transactions (crates/noedb-txn): sets of reads and writes, conflicts, waits and the manager.
pub mod Transaction
pub mod Ssi
pub mod Deadlock
pub mod Manager
pub mod Commit
pub mod Calls
mod Tests
