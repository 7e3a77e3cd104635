-- ===== src/Txn/Transaction.antt =====
-- crates/noedb-txn/src/transaction.rs and error.rs: a transaction and its buffered writes.
use noe_db.Base.ByteMap.{ByteMap, lookup, insert}
use noe_db.Base.{Bool, Option, true, false, ℕ, [], none, some}
use noe_db.Mvcc.Version.{TxnId, CommitTs}
use noe_db.Base.Bytes.{Bytes}

-- `BTreeSet<Vec<u8>>`
abbrev pub KeySet : Type 0
KeySet = ByteMap Unit

abbrev pub has_key : {A : Type 0} → Bytes → ByteMap A → Bool
has_key k m = elim (lookup k m) [ none ↦ false | some v ↦ true ]

-- The two messages of `SsiDecision::Abort`.
pub data AbortReason : Type 0 where
  write_read_conflict : AbortReason
  rw_cycle : AbortReason

pub data TxnError : Type 0 where
  no_active_txn : TxnError
  txn_already_active : TxnError
  serialization_failure : AbortReason → TxnError
  deadlock_victim : TxnError
  wait_timeout : TxnError
  storage : Bytes → TxnError

pub data TxnResult {ℓ} (A : Type ℓ) : Type ℓ where
  done : A → TxnResult A
  failed : TxnError → TxnResult A

pub data WriteOp : Type 0 where
  put_op : Bytes → WriteOp
  delete_op : WriteOp

pub data TxnState : Type 0 where
  active : TxnState
  committed : TxnState
  aborted : TxnState

abbrev pub is_active : TxnState → Bool
is_active active = true
is_active committed = false
is_active aborted = false

-- Instants are numbers of milliseconds.
pub record Transaction : Type 0 where
  pub id : TxnId
  pub start_ts : CommitTs
  pub read_set : KeySet
  pub write_set : ByteMap WriteOp
  pub state : TxnState
  pub started_at : ℕ
  pub waiting_on : Option Bytes

abbrev pub new_transaction : TxnId → CommitTs → ℕ → Transaction
new_transaction id start_ts now = record {
  id = id;
  start_ts = start_ts;
  read_set = [];
  write_set = [];
  state = active;
  started_at = now;
  waiting_on = none;
}

unfoldable pub record_read : Bytes → Transaction → Transaction
record_read key txn = record txn { read_set = insert key tt txn.read_set }

unfoldable pub stage_put : Bytes → Bytes → Transaction → Transaction
stage_put key value txn = record txn { write_set = insert key (put_op value) txn.write_set }

unfoldable pub stage_delete : Bytes → Transaction → Transaction
stage_delete key txn = record txn { write_set = insert key delete_op txn.write_set }

-- `None` without a pending write, `Some(None)` for a pending delete.
unfoldable pub read_own : Bytes → Transaction → Option (Option Bytes)
read_own key txn = elim (lookup key txn.write_set) [
  | none ↦ none
  | some op ↦ elim op [ put_op v ↦ some (some v) | delete_op ↦ some none ]
]
