-- ===== src/Txn/Manager.antt =====
-- crates/noedb-txn/src/manager.rs: the transaction manager. Each call is one step; the locks that the
-- source takes within a call are not modelled.
pub mod Crossing
pub mod OwnWrites
use noe_db.Base.{
  none, some, zero, suc, ℕ, if◌then◌else◌, [], Option, List, Bool, length, ◌+◌, ◌∷◌, ◌&&◌, ◌%◌, not,
  ◌==◌, ◌^◌,
}
use noe_db.Base.IdMap.{IdMap, lookup_id, insert_id, remove_id, contains_id}
use noe_db.Mvcc.Table.{
  MvccMemTable, new_table, abort_intents, gc_versions, GcStats, Checked, returns, map_checked,
}
use noe_db.Txn.Transaction.{
  Transaction, TxnError, TxnResult, done, failed, serialization_failure, no_active_txn,
  txn_already_active, WriteOp, put_op, delete_op, has_key, KeySet, is_active, record_read, read_own,
  committed, new_transaction,
}
use noe_db.Txn.Ssi.{
  SsiChecker, new_checker, check_commit, register_commit, purge, note_rw_dependency, SsiDecision,
  allow, abort,
}
use noe_db.Txn.Deadlock.{DeadlockGuard, new_guard, poll, clear}
use noe_db.Mvcc.Table
use noe_db.Mvcc.Version.{TimestampOracle, new_oracle, TxnId, next_ts, CommitTs}
use noe_db.Base.Bytes.{Bytes}
use noe_db.Base.ByteMap.{ByteMap}
use noe_db.Mvcc.View.{ReadView}

pub record TxnManager : Type 0 where
  pub oracle : TimestampOracle
  pub mvcc : MvccMemTable
  pub next_id : TxnId
  pub active : IdMap Transaction
  pub ssi : SsiChecker
  pub deadlock : DeadlockGuard
  pub sessions : IdMap TxnId

abbrev pub new_manager : TxnManager
new_manager = record {
  oracle = new_oracle;
  mvcc = new_table;
  next_id = 1;
  active = [];
  ssi = new_checker;
  deadlock = new_guard;
  sessions = [];
}

unfoldable pub in_txn : ℕ → TxnManager → Bool
in_txn session_id m = contains_id session_id m.sessions

-- `now` is the instant that `Transaction::new` reads.
unfoldable pub begin : ℕ → ℕ → TxnManager → TxnManager × TxnResult TxnId
begin now session_id m =
    let (oracle, start_ts) = next_ts m.oracle in
    let id = m.next_id in
    if contains_id session_id m.sessions then (m, failed txn_already_active) else (
      record m {
        oracle = oracle;
        next_id = (id + 1) % 2 ^ 64;
        active = insert_id id (new_transaction id start_ts now) m.active;
        sessions = insert_id session_id id m.sessions;
      },
      done id,
    )

-- The other transactions that are active.
unfoldable pub active_ids : TxnId → IdMap Transaction → List TxnId
active_ids txn_id [] = []
active_ids txn_id ((id, txn) ∷ txns) =
    let rest = active_ids txn_id txns in
    if is_active txn.state && not (txn.id == txn_id) then txn.id ∷ rest else rest

-- The transaction of a session.
unfoldable pub session_txn : ℕ → TxnManager → Option (TxnId × Transaction)
session_txn session_id m = elim (lookup_id session_id m.sessions) [
  | none ↦ none
  | some txn_id ↦ elim (lookup_id txn_id m.active) [ none ↦ none | some txn ↦ some (txn_id, txn) ]
]

unfoldable pub read_view : ℕ → TxnManager → TxnResult ReadView
unfolding session_txn
read_view session_id m = elim (session_txn session_id m) [
  | none ↦ failed no_active_txn
  | some found ↦ done (record {
    snapshot_ts = found.1.start_ts;
    active_txns = active_ids found.0 m.active;
    txn_id = found.0;
  })
]

-- A change of the session's transaction, with what it returns.
unfoldable pub with_txn {ℓ} :
    {A : Type ℓ} → ℕ → (Transaction → Transaction × A) → TxnManager → TxnManager × TxnResult A
unfolding session_txn
with_txn session_id f m = elim (session_txn session_id m) [
  | none ↦ (m, failed no_active_txn)
  | some found ↦
      if is_active found.1.state
      then (record m { active = insert_id found.0 (f found.1).0 m.active }, done (f found.1).1)
      else (m, failed no_active_txn)
]

-- The other active transactions that have the key among their writes.
unfoldable pub writers_of : TxnId → Bytes → IdMap Transaction → List TxnId
writers_of reader_id key [] = []
writers_of reader_id key ((id, txn) ∷ txns) =
    let rest = writers_of reader_id key txns in
    if not (id == reader_id) && is_active txn.state && has_key key txn.write_set
    then id ∷ rest
    else rest

unfoldable pub note_all : TxnId → List TxnId → SsiChecker → SsiChecker
note_all reader_id [] c = c
note_all reader_id (writer ∷ writers) c =
    note_all reader_id writers (note_rw_dependency reader_id writer c)

unfoldable pub track_rw_dependencies : TxnId → Bytes → TxnManager → TxnManager
unfolding writers_of note_all
track_rw_dependencies reader_id key m = record m {
  ssi = note_all reader_id (writers_of reader_id key m.active) m.ssi;
}

-- The read of a key by the transaction's own writes, or in its snapshot.
unfoldable pub read_key : ℕ → Bytes → TxnManager → Checked (TxnResult (Option Bytes))
unfolding read_view session_txn
read_key session_id key m = elim (read_view session_id m) [
  | failed e ↦ returns (failed e)
  | done view ↦ elim (with_txn session_id (λ txn. (txn, read_own key txn)) m).1 [
    | failed e ↦ returns (failed e)
    | done own ↦ elim own [
      | some v ↦ returns (done v)
      | none ↦ map_checked done (Table.get m.mvcc key view)
    ]
  ]
]

unfoldable pub get_key : ℕ → Bytes → TxnManager → TxnManager × Checked (TxnResult (Option Bytes))
unfolding with_txn session_txn track_rw_dependencies read_key
get_key session_id key m =
    let (m1, recorded) = with_txn {0} session_id (λ txn. (record_read key txn, tt)) m in
    elim (session_txn session_id m) [
      | none ↦ (m, returns (failed no_active_txn))
      | some found ↦ elim recorded [
        | failed e ↦ (m1, returns (failed e))
        | done u ↦ let m2 = track_rw_dependencies found.0 key m1 in (m2, read_key session_id key m2)
      ]
    ]
