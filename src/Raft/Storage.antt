-- ===== src/Raft/Storage.antt =====
-- `MemStorage` of crates/noedb-raft/src/storage.rs. None of its operations fails.
use noe_db.Base.{List, [], Option, none, some}
use noe_db.Raft.Types.{LogIndex, prev}
use noe_db.Raft.Log.{LogEntry, RaftLog, new_log, append, truncate_from, restore}
use noe_db.Raft.State.{HardState, Snapshot}

pub record MemStorage : Type 0 where
  pub hard : HardState
  pub log : RaftLog
  pub snapshot : Option Snapshot

-- `HardState::default()`
abbrev pub default_hard : HardState
default_hard = record { current_term = 0; voted_for = none; commit_index = 0; last_applied = 0 }

abbrev pub new_storage : MemStorage
new_storage = record { hard = default_hard; log = new_log; snapshot = none }

unfoldable pub save_hard_state : MemStorage → HardState → MemStorage
save_hard_state s h = record s { hard = h }

unfoldable pub append_stored : MemStorage → LogIndex → List LogEntry → MemStorage
append_stored s from_index entries = record s {
  log = (append (truncate_from s.log (prev from_index)) entries).0;
}

unfoldable pub save_snapshot : MemStorage → Snapshot → MemStorage
save_snapshot s snap = record s {
  snapshot = some snap;
  log = restore s.log snap.index snap.term [];
}
