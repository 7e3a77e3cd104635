-- ===== src/Raft/Node/Compaction.antt =====
-- What carrying out a snapshot does to the log of the node.
use noe_db.Base.{◌+◌, ◌-◌, ◌<◌, ◌≡◌, true, arith, ltb}
use noe_db.Base.Words.{u64_max}
use noe_db.Raft.Node.{RaftNode, exec}
use noe_db.Raft.Storage.{save_snapshot}
use noe_db.Raft.Types.{is_leader}
use noe_db.Raft.Log.{last_index, last_index-restore}
use noe_db.Raft.Commit.{compaction}

-- For a leader whose last index is more than the threshold above `last_applied`, which is below the
-- greatest 64-bit word: carrying out what compaction asks for leaves a log that ends at
-- `last_applied`, in memory and in the store, so the entries that were not applied are gone.
pub compaction-drops_unapplied :
    (n : RaftNode)
    → is_leader n.raft.soft.role ≡ true
    → n.raft.hard.last_applied < u64_max
    → n.raft.hard.last_applied + n.raft.compact_threshold < last_index n.raft.log
    → (last_index (exec n (compaction n.raft)).0.raft.log ≡ n.raft.hard.last_applied)
      × (last_index (exec n (compaction n.raft)).0.storage.log ≡ n.raft.hard.last_applied)
unfolding exec save_snapshot
compaction-drops_unapplied n lead word far =
    let due : ltb n.raft.compact_threshold (last_index n.raft.log - n.raft.hard.last_applied)
        ≡ true =
      ground arith in
    (
      rw (lead, due) (last_index-restore n.raft.log _ _ word),
      rw (lead, due) (last_index-restore n.storage.log _ _ word),
    )
