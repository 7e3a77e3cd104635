-- ===== src/Txn/Calls.antt =====
-- The calls that sessions make of the transaction manager, in any order.
pub mod Conflicts
pub mod Snapshots
pub mod Isolation
pub mod Sessions
pub mod Linked
pub mod Running
use noe_db.Base.{[], ◌∷◌, none, some, zero, suc, ℕ, List, ◌∷◌}
use noe_db.Txn.Manager.{TxnManager, begin, get_key, with_txn}
use noe_db.Txn.Commit.{Durable, commit_with_durable, rollback, gc}
use noe_db.Txn.Transaction.{stage_put, stage_delete}
use noe_db.Base.Bytes.{Bytes}
use noe_db.Mvcc.Version.{CommitTs}

pub data Call : Type 0 where
  begin_call : ℕ → ℕ → Call
  get_call : ℕ → Bytes → Call
  put_call : ℕ → Bytes → Bytes → Call
  delete_call : ℕ → Bytes → Call
  commit_call : Durable → ℕ → ℕ → Call
  rollback_call : ℕ → Call
  gc_call : CommitTs → Call

unfoldable pub after_call : Call → TxnManager → TxnManager
after_call (begin_call now s) m = (begin now s m).0
after_call (get_call s key) m = (get_key s key m).0
after_call (put_call s key value) m = (with_txn {0} s (λ txn. (stage_put key value txn, tt)) m).0
after_call (delete_call s key) m = (with_txn {0} s (λ txn. (stage_delete key txn, tt)) m).0
after_call (commit_call durable now s) m = (commit_with_durable durable now s m).0
after_call (rollback_call s) m = (rollback s m).0
after_call (gc_call ts) m = (gc ts m).0

unfoldable pub run : List Call → TxnManager → TxnManager
unfolding after_call
run [] m = m
run (c ∷ calls) m = run calls (after_call c m)
