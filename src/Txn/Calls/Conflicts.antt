-- ===== src/Txn/Calls/Conflicts.antt =====
-- What the check for conflicts sees.
use noe_db.Base.{refl, ◌≡◌, List, [], arith, ◌∷◌, ℕ, ◌≢◌, Option-cases, inl, inr}
use noe_db.Base.IdMap.{remove_id, insert_id, lookup_id, IdMap}
use noe_db.Txn.Manager.{
  TxnManager, begin, get_key, with_txn, note_all, track_rw_dependencies, new_manager,
}
use noe_db.Txn.Calls.{
  Call, after_call, run, begin_call, get_call, put_call, delete_call, commit_call, rollback_call,
  gc_call,
}
use noe_db.Txn.Commit.{
  commit, commit_with_durable, check_and_commit, make_durable, finish_commit, rollback, gc,
  after_check, after_poll, after_durable,
}
use noe_db.Txn.Ssi.{
  purge, note_rw_dependency, register_commit, SsiChecker, check_commit, has_conflict, abort,
}
use noe_db.Mvcc.Version.{TxnId}
use noe_db.Txn.Transaction.{
  KeySet, failed, serialization_failure, write_read_conflict, Transaction, done, AbortReason,
}
use noe_db.Txn.Deadlock.{poll, DeadlockGuard}

write_keys-note_all :
    (reader : TxnId) (writers : List TxnId) (c : SsiChecker)
    → (note_all reader writers c).write_keys ≡ c.write_keys
unfolding note_all note_rw_dependency
write_keys-note_all reader [] c = refl
write_keys-note_all reader (w ∷ writers) c =
    ground (arith, write_keys-note_all reader writers (note_rw_dependency reader w c))

write_keys-purge :
    (txn_id : TxnId) (keys : KeySet) (c : SsiChecker)
    → c.write_keys ≡ []
    → (purge txn_id (register_commit txn_id keys c)).write_keys ≡ []
unfolding purge register_commit insert_id remove_id
write_keys-purge txn_id keys c h = ground (arith, h)

write_keys-purge_alone :
    (txn_id : TxnId) (c : SsiChecker) → c.write_keys ≡ [] → (purge txn_id c).write_keys ≡ []
unfolding purge remove_id
write_keys-purge_alone txn_id c h = ground (arith, h)

write_keys-after_call :
    (c : Call) (m : TxnManager) → m.ssi.write_keys ≡ [] → (after_call c m).ssi.write_keys ≡ []
unfolding after_call
write_keys-after_call (begin_call now s) m h = unfold begin in ground arith
write_keys-after_call (get_call s key) m h =
    unfold get_key with_txn track_rw_dependencies in grind (arith, write_keys-note_all)
write_keys-after_call (put_call s key value) m h = unfold with_txn in ground arith
write_keys-after_call (delete_call s key) m h = unfold with_txn in ground arith
write_keys-after_call (commit_call durable now s) m h =
    unfold commit_with_durable after_poll check_and_commit after_check make_durable after_durable
      finish_commit in
    grind (arith, write_keys-purge)
write_keys-after_call (rollback_call s) m h =
    unfold rollback in grind (arith, write_keys-purge_alone)
write_keys-after_call (gc_call ts) m h = unfold gc in ground arith

write_keys-run :
    (calls : List Call) (m : TxnManager) → m.ssi.write_keys ≡ [] → (run calls m).ssi.write_keys ≡ []
unfolding run
write_keys-run [] m h = h
write_keys-run (c ∷ calls) m h = write_keys-run calls (after_call c m) (write_keys-after_call c m h)

check_commit-conflict :
    (txn : Transaction) (c : SsiChecker)
    → c.write_keys ≡ []
    → check_commit txn c ≢ abort write_read_conflict
unfolding check_commit has_conflict
check_commit-conflict txn c h = ground (arith, h)

poll-error :
    (now : ℕ) (txns : IdMap Transaction) (id : TxnId) (g : DeadlockGuard) (r : AbortReason)
    → (poll now txns id g).1 ≢ failed (serialization_failure r)
unfolding poll
poll-error now txns id g r = ground arith

check_and_commit-conflict :
    (s : ℕ) (id : TxnId) (m : TxnManager)
    → m.ssi.write_keys ≡ []
    → (check_and_commit (λ ts pending. done tt) s id m).1
      ≢ failed (serialization_failure write_read_conflict)
unfolding check_and_commit after_check make_durable after_durable finish_commit
check_and_commit-conflict s id m h = elim (Option-cases (lookup_id id m.active)) [
  | inl missing ↦ ground arith
  | inr (txn, found) ↦ ground (arith, check_commit-conflict txn m.ssi h)
]

commit-conflict :
    (now s : ℕ) (m : TxnManager)
    → m.ssi.write_keys ≡ []
    → (commit now s m).1 ≢ failed (serialization_failure write_read_conflict)
unfolding commit commit_with_durable after_poll
commit-conflict now s m h = elim (Option-cases (lookup_id s m.sessions)) [
  | inl missing ↦ ground arith
  | inr (id, found) ↦
      let guard : DeadlockGuard = (poll now m.active id m.deadlock).0 in
      ground (
        arith,
        poll-error now m.active id m.deadlock write_read_conflict,
        check_and_commit-conflict s id (record m { deadlock = guard }) h,
      )
]

-- Whatever calls sessions have made of a new manager, no commit without a durable hook is refused
-- for the conflict that another transaction has committed a key that this one has read and
-- written.
pub commit-never_conflicts :
    (calls : List Call) (now session_id : ℕ)
    → (commit now session_id (run calls new_manager)).1
      ≢ failed (serialization_failure write_read_conflict)
commit-never_conflicts calls now session_id =
    commit-conflict now session_id (run calls new_manager) (write_keys-run calls new_manager refl)
