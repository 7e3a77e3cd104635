-- ===== src/Txn/Calls/Running.antt =====
-- The transactions of open sessions over runs of calls.
use noe_db.Base.{some, refl, [], ◌∷◌, ℕ, ◌≡◌, ◌<◌, arith, ◌+◌, ◌≤◌, List, length}
use noe_db.Base.IdMap.{lookup_id}
use noe_db.Txn.Manager.{TxnManager, begin, get_key, with_txn, new_manager, track_rw_dependencies}
use noe_db.Txn.Calls.{
  Call, after_call, run, begin_call, get_call, put_call, delete_call, commit_call, rollback_call,
  gc_call,
}
use noe_db.Txn.Commit.{
  commit_with_durable, rollback, gc, after_poll, after_check, Durable, after_durable,
  check_and_commit, make_durable, finish_commit,
}
use noe_db.Txn.Transaction.{stage_put, stage_delete}
use noe_db.Txn.Calls.Sessions.{IsRunning}
use noe_db.Base.Words.{u64_max}
use noe_db.Txn.Calls.Linked.{
  begin-Linked, Linked, get_key-Linked, with_txn-Linked, commit-Linked, rollback-Linked,
}

-- The sessions are linked and the next id is at most `n`.
abbrev Below : ℕ → TxnManager → Type 0
Below n m = Linked m × (m.next_id ≤ n)

next_id-commit :
    (durable : Durable) (now s : ℕ) (m : TxnManager)
    → (commit_with_durable durable now s m).0.next_id ≡ m.next_id
unfolding commit_with_durable after_poll check_and_commit after_check make_durable after_durable
    finish_commit
next_id-commit durable now s m = ground arith

call-Below :
    (c : Call) (m : TxnManager) (n : ℕ) → n < u64_max → Below n m → Below (n + 1) (after_call c m)
unfolding after_call
call-Below (begin_call now s) m n room (linked, low) =
    (begin-Linked now s m (omega arith) linked, unfold begin in ground arith)
call-Below (get_call s key) m n room (linked, low) =
    (get_key-Linked s key m linked, unfold get_key with_txn track_rw_dependencies in ground arith)
call-Below (put_call s key value) m n room (linked, low) = (
  with_txn-Linked s (λ t. (stage_put key value t, tt)) m (λ t. unfold stage_put in refl) linked,
  unfold with_txn in ground arith,
)
call-Below (delete_call s key) m n room (linked, low) = (
  with_txn-Linked s (λ t. (stage_delete key t, tt)) m (λ t. unfold stage_delete in refl) linked,
  unfold with_txn in ground arith,
)
call-Below (commit_call durable now s) m n room (linked, low) =
    (commit-Linked durable now s m linked, omega (arith, next_id-commit durable now s m))
call-Below (rollback_call s) m n room (linked, low) =
    (rollback-Linked s m linked, unfold rollback in ground arith)
call-Below (gc_call ts) m n room (linked, low) = (unfold gc in linked, unfold gc in omega arith)

run-Below :
    (calls : List Call) (m : TxnManager) (n : ℕ)
    → n + length calls < u64_max
    → Below n m
    → Linked (run calls m)
unfolding run
run-Below [] m n room below = below.0
run-Below (c ∷ calls) m n room below =
    run-Below calls (after_call c m) (n + 1) (omega arith) (call-Below c m n (omega arith) below)

new_manager-Linked : Linked new_manager
unfolding lookup_id
new_manager-Linked = (λ s id h. cc, λ s r id h k. cc)

-- After any calls on a new manager, fewer than 2^64 - 2, the transaction of an open session is in the
-- map of the manager and active, and it is the transaction of no other session.
pub open_sessions_run :
    (calls : List Call) (s r id : ℕ)
    → 1 + length calls < u64_max
    → lookup_id s (run calls new_manager).sessions ≡ some id
    → lookup_id r (run calls new_manager).sessions ≡ some id
    → IsRunning id (run calls new_manager).active × (s ≡ r)
open_sessions_run calls s r id room mine theirs =
    let linked = run-Below calls new_manager 1 room (new_manager-Linked, omega arith) in
    ((linked.0 s id mine).0, linked.1 s r id mine theirs)
