-- ===== src/Txn/Commit.antt =====
-- crates/noedb-txn/src/manager.rs: how a transaction ends, and the calls on the table as a whole.
use noe_db.Txn.Manager.{TxnManager}
use noe_db.Base.{none, some, ℕ, [], Option, length, ◌∷◌}
use noe_db.Base.IdMap.{lookup_id, remove_id}
use noe_db.Mvcc.Table.{
  MvccMemTable, new_table, abort_intents, gc_versions, GcStats, Checked, returns, map_checked,
}
use noe_db.Txn.Transaction.{
  Transaction, TxnResult, done, failed, serialization_failure, no_active_txn, WriteOp, put_op,
  delete_op, KeySet,
}
use noe_db.Txn.Ssi.{check_commit, register_commit, purge, SsiDecision, allow, abort}
use noe_db.Txn.Deadlock.{poll, clear}
use noe_db.Mvcc.Table
use noe_db.Mvcc.Version.{TxnId, next_ts, CommitTs}
use noe_db.Base.Bytes.{Bytes}
use noe_db.Base.ByteMap.{ByteMap}

pub record CommitResult : Type 0 where
  pub commit_ts : CommitTs
  pub keys_written : ℕ

unfoldable pub apply_op : Bytes → WriteOp → CommitTs → MvccMemTable → MvccMemTable
apply_op key (put_op v) ts t = Table.put t key v ts
apply_op key delete_op ts t = Table.delete t key ts

unfoldable pub apply_writes : ByteMap WriteOp → CommitTs → MvccMemTable → MvccMemTable
unfolding apply_op
apply_writes [] ts t = t
apply_writes ((key, op) ∷ pending) ts t = apply_writes pending ts (apply_op key op ts t)

unfoldable pub keys_of : ByteMap WriteOp → KeySet
keys_of [] = []
keys_of ((key, op) ∷ pending) = (key, tt) ∷ keys_of pending

-- What a commit does once its writes are durable.
unfoldable pub finish_commit :
    ℕ → TxnId → ByteMap WriteOp → CommitTs → TxnManager → TxnManager × TxnResult CommitResult
unfolding apply_writes keys_of
finish_commit session_id txn_id pending ts m = (
  record m {
    mvcc = apply_writes pending ts m.mvcc;
    ssi = purge txn_id (register_commit txn_id (keys_of pending) m.ssi);
    deadlock = clear txn_id m.deadlock;
    active = remove_id txn_id m.active;
    sessions = remove_id session_id m.sessions;
  },
  done (record { commit_ts = ts; keys_written = length pending }),
)

abbrev pub Durable : Type 0
Durable = CommitTs → ByteMap WriteOp → TxnResult (Unit {0})

unfoldable pub after_durable :
    TxnResult (Unit {0})
    → ℕ
    → TxnId
    → ByteMap WriteOp
    → CommitTs
    → TxnManager
    → TxnManager × TxnResult CommitResult
unfolding finish_commit
after_durable (failed e) session_id txn_id pending ts m = (m, failed e)
after_durable (done u) session_id txn_id pending ts m = finish_commit session_id txn_id pending ts m

-- Behind the check for conflicts: the timestamp and the durable hook.
unfoldable pub make_durable :
    Durable → ℕ → TxnId → Transaction → TxnManager → TxnManager × TxnResult CommitResult
unfolding after_durable
make_durable durable session_id txn_id txn m =
    let (oracle, ts) = next_ts m.oracle in
    after_durable (durable ts txn.write_set) session_id txn_id txn.write_set ts
      (record m { oracle = oracle })

unfoldable pub after_check :
    SsiDecision
    → Durable
    → ℕ
    → TxnId
    → Transaction
    → TxnManager
    → TxnManager × TxnResult CommitResult
unfolding make_durable
after_check allow durable session_id txn_id txn m = make_durable durable session_id txn_id txn m
after_check (abort msg) durable session_id txn_id txn m = (m, failed (serialization_failure msg))

-- Behind the check for deadlocks.
unfoldable pub check_and_commit :
    Durable → ℕ → TxnId → TxnManager → TxnManager × TxnResult CommitResult
unfolding after_check
check_and_commit durable session_id txn_id m = elim (lookup_id txn_id m.active) [
  | none ↦ (m, failed no_active_txn)
  | some txn ↦ after_check (check_commit txn m.ssi) durable session_id txn_id txn m
]

unfoldable pub after_poll :
    TxnResult (Unit {0}) → Durable → ℕ → TxnId → TxnManager → TxnManager × TxnResult CommitResult
unfolding check_and_commit
after_poll (failed e) durable session_id txn_id m = (m, failed e)
after_poll (done u) durable session_id txn_id m = check_and_commit durable session_id txn_id m

unfoldable pub commit_with_durable :
    Durable → ℕ → ℕ → TxnManager → TxnManager × TxnResult CommitResult
unfolding after_poll
commit_with_durable durable now session_id m = elim (lookup_id session_id m.sessions) [
  | none ↦ (m, failed no_active_txn)
  | some txn_id ↦
      let (guard, polled) = poll now m.active txn_id m.deadlock in
      after_poll polled durable session_id txn_id (record m { deadlock = guard })
]

unfoldable pub commit : ℕ → ℕ → TxnManager → TxnManager × TxnResult CommitResult
unfolding commit_with_durable
commit now session_id m = commit_with_durable (λ ts pending. done tt) now session_id m

unfoldable pub rollback : ℕ → TxnManager → TxnManager × TxnResult (Unit {0})
rollback session_id m = elim (lookup_id session_id m.sessions) [
  | none ↦ (m, failed no_active_txn)
  | some txn_id ↦ (
    record m {
      sessions = remove_id session_id m.sessions;
      mvcc = abort_intents m.mvcc txn_id;
      deadlock = clear txn_id m.deadlock;
      ssi = purge txn_id m.ssi;
      active = remove_id txn_id m.active;
    },
    done tt,
  )
]

unfoldable pub get_at_ts : Bytes → CommitTs → TxnManager → Checked (Option Bytes)
get_at_ts key read_ts m = Table.get_at_ts m.mvcc key read_ts

unfoldable pub gc : CommitTs → TxnManager → TxnManager × GcStats
gc min_retain_ts m =
    let (mvcc, stats) = gc_versions m.mvcc min_retain_ts in (record m { mvcc = mvcc }, stats)

unfoldable pub active_count : TxnManager → ℕ
active_count m = length m.active
