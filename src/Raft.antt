-- ===== src/Raft.antt =====
-- Raft consensus (crates/noedb-raft): the core state machine, its log and membership rules.
pub mod Types
pub mod Log
pub mod Config
pub mod Membership
pub mod Rpc
pub mod State
pub mod Replication
pub mod Commit
pub mod Election
pub mod Handlers
pub mod Machine
pub mod Storage
pub mod Node
mod Tests
